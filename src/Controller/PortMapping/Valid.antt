-- ===== src/Controller/PortMapping/Valid.antt =====
-- The operations keep the table valid: no service port gets a second mesh port, and no port outside
-- the range is handed out.
use maesh.Common.{
  ℕ, ◌^◌, ◌-◌, ◌<◌, ◌≤◌, String, ◌≡◌, ◌≢◌, subst, some, none, lookup, insert, erase, nat_eq, arith,
  nat_beq_iff, lookup-insert, lookup-erase, lookup-insert_self, insert-Unique, erase-Unique,
  Option-cases, inl, inr,
}
use maesh.Common.Int32.{order32}
use maesh.Controller.PortMapping.{PortMapping, MappedPort, find, add, remove, allocated}
use maesh.Controller.PortMapping.Add.{IsFirstFree, Allocates, add-Allocates}
use maesh.Controller.PortMapping.Find.{IsValid, mapped_port, find-eq-some_iff, find-eq-find}

-- The range ends below the greatest int32, so the loop of `Add` ends.
pub record IsBounded (p : PortMapping) : Type 0 where
  pub low : p.min_port < 2 ^ 32
  pub high : order32 p.max_port < 2 ^ 32 - 1

module _ (p : PortMapping) (q : ℕ) (v : MappedPort) where
  insert-IsValid :
      IsValid p
      → q < 2 ^ 32
      → order32 p.min_port ≤ order32 q
      → order32 q ≤ order32 p.max_port
      → ((r : ℕ) → lookup r p.table ≢ some v)
      → IsValid (record p { table = insert q v p.table })
  insert-IsValid valid word low high fresh = record {
    unique = insert-Unique q v p.table valid.unique;
    single = λ r s w hr hs. ground (
      arith,
      lookup-insert q r v p.table,
      lookup-insert q s v p.table,
      nat_beq_iff q r,
      nat_beq_iff q s,
      valid.single r s w,
      fresh r,
      fresh s,
    );
    ranged =
        λ r w hr. ground (arith, lookup-insert q r v p.table, nat_beq_iff q r, valid.ranged r w);
  }

erase-IsValid :
    (p : PortMapping) (q : ℕ) → IsValid p → IsValid (record p { table = erase q p.table })
erase-IsValid p q valid = record {
  unique = erase-Unique q p.table valid.unique;
  single = λ r s w hr hs.
      ground (arith, lookup-erase q r p.table, lookup-erase q s p.table, valid.single r s w);
  ranged = λ r w hr. ground (arith, lookup-erase q r p.table, valid.ranged r w);
}

module _ (p : PortMapping) (namespace name : String) (port : ℕ) where
  find-none :
      IsValid p
      → find p namespace name port ≡ none
      → (r : ℕ) → lookup r p.table ≢ some (mapped_port namespace name port)
  find-none valid e r h = cc (e, (find-eq-some_iff namespace name port p r valid).1 h)

  add-IsFirstFree :
      {q : ℕ} {p' : PortMapping}
      → IsBounded p
      → add p namespace name port ≡ allocated q p'
      → IsFirstFree p (mapped_port namespace name port) p.min_port q p'
  add-IsFirstFree bounded e =
      subst (Allocates p (mapped_port namespace name port) p.min_port) e
        (add-Allocates p namespace name port bounded.low bounded.high)

  pub add-IsValid :
      {q : ℕ} {p' : PortMapping}
      → IsValid p
      → IsBounded p
      → find p namespace name port ≡ none
      → add p namespace name port ≡ allocated q p'
      → IsValid p'
  add-IsValid valid bounded unmapped e =
      let f = add-IsFirstFree bounded e in
      rw f.entry (insert-IsValid p _ _ valid f.word f.low f.high (find-none valid unmapped))

  pub add-IsBounded :
      {q : ℕ} {p' : PortMapping}
      → IsBounded p
      → add p namespace name port ≡ allocated q p'
      → IsBounded p'
  add-IsBounded bounded e =
      rw (add-IsFirstFree bounded e).entry (record { low = bounded.low; high = bounded.high })

  -- The allocated port is the one that Find shows.
  pub find-add_self :
      {q : ℕ} {p' : PortMapping}
      → IsValid p
      → IsBounded p
      → find p namespace name port ≡ none
      → add p namespace name port ≡ allocated q p'
      → find p' namespace name port ≡ some q
  find-add_self {q} {p'} valid bounded unmapped e =
      (find-eq-some_iff namespace name port p' q (add-IsValid valid bounded unmapped e)).1
        (rw (add-IsFirstFree bounded e).entry (lookup-insert_self q _ p.table))

  module _ (namespace' name' : String) (port' : ℕ)
      (other : mapped_port namespace' name' port' ≢ mapped_port namespace name port) where
    -- The entries of the other service ports survive an allocation.
    pub find-add :
        {q : ℕ} {p' : PortMapping}
        → IsValid p
        → IsBounded p
        → find p namespace name port ≡ none
        → add p namespace name port ≡ allocated q p'
        → find p namespace' name' port' ≡ find p' namespace' name' port'
    find-add {q} {p'} valid bounded unmapped e =
        let f = add-IsFirstFree bounded e in
        find-eq-find namespace' name' port' p p' valid (add-IsValid valid bounded unmapped e) λ r.
          rw f.entry (
            ground (
              arith,
              lookup-insert q r (mapped_port namespace name port) p.table,
              nat_beq_iff q r,
              f.free,
              other,
            ))

  -- Remove erases the entry that Find shows.
  remove-eq-some :
      {q : ℕ} {p' : PortMapping}
      → remove p namespace name port ≡ some (q, p')
      → (find p namespace name port ≡ some q) × (p' ≡ record p { table = erase q p.table })
  unfolding remove
  remove-eq-some e = ground arith

  -- It fails only if Find shows nothing.
  pub remove-eq-none : remove p namespace name port ≡ none → find p namespace name port ≡ none
  unfolding remove
  remove-eq-none e = ground arith

  pub remove-IsValid :
      {q : ℕ} {p' : PortMapping}
      → IsValid p
      → remove p namespace name port ≡ some (q, p')
      → IsValid p'
  remove-IsValid {q} valid e = rw (remove-eq-some e).1 (erase-IsValid p q valid)

  pub remove-IsBounded :
      {q : ℕ} {p' : PortMapping}
      → IsBounded p
      → remove p namespace name port ≡ some (q, p')
      → IsBounded p'
  remove-IsBounded bounded e =
      rw (remove-eq-some e).1 (record { low = bounded.low; high = bounded.high })

  -- Once removed, the service port has no mesh port.
  pub find-remove_self :
      {q : ℕ} {p' : PortMapping}
      → IsValid p
      → remove p namespace name port ≡ some (q, p')
      → find p' namespace name port ≡ none
  find-remove_self {q} {p'} valid e = elim (Option-cases (find p' namespace name port)) [
    | inl gone ↦ gone
    | inr (r, left) ↦
        let (at_q, entry) = remove-eq-some e in
        let here = (find-eq-some_iff namespace name port p q valid).0 at_q in
        let there = (find-eq-some_iff namespace name port p' r (remove-IsValid valid e)).0 left in
        absurd (
          ground (
            arith,
            lookup-erase q r p.table,
            nat_beq_iff q r,
            valid.single q r (mapped_port namespace name port) here,
            rw entry at there,
          ))
  ]

  -- The other service ports keep theirs.
  pub find-remove :
      {q : ℕ} {p' : PortMapping} (namespace' name' : String) (port' : ℕ)
      → mapped_port namespace' name' port' ≢ mapped_port namespace name port
      → IsValid p
      → remove p namespace name port ≡ some (q, p')
      → find p namespace' name' port' ≡ find p' namespace' name' port'
  find-remove {q} {p'} namespace' name' port' other valid e =
      let (at_q, entry) = remove-eq-some e in
      let here = (find-eq-some_iff namespace name port p q valid).0 at_q in
      find-eq-find namespace' name' port' p p' valid (remove-IsValid valid e)
        λ r. rw entry (ground (arith, lookup-erase q r p.table, nat_beq_iff q r, here, other))
