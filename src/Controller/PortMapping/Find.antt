-- ===== src/Controller/PortMapping/Find.antt =====
-- The table read backwards: `Find` and the invariant under which its answer does not depend on the
-- order in which the map is iterated.
use maesh.Common.{
  ℕ, String, ◌≡◌, ◌≢◌, ◌↔◌, sym, ap, ◌∙◌, some, none, lookup, Unique, nat_eq, ◌≤◌, ◌<◌, ◌^◌, arith,
  eq_iff, nat_beq_iff, [], ◌∷◌, Option-cases, true, inl, inr, string_eq,
}
use maesh.Common.Int32.{order32}
use maesh.Controller.PortMapping.{PortMapping, MappedPort, Table, is_for, find_in, find}

-- No service port has two mesh ports, and each mesh port lies in the range of the mapping.
pub record IsValid (p : PortMapping) : Type 0 where
  pub unique : Unique p.table
  pub single :
      (q r : ℕ) (v : MappedPort) → lookup q p.table ≡ some v → lookup r p.table ≡ some v → q ≡ r
  pub ranged :
      (q : ℕ) (v : MappedPort)
      → lookup q p.table ≡ some v
      → (q < 2 ^ 32) × (order32 p.min_port ≤ order32 q) × (order32 q ≤ order32 p.max_port)

abbrev pub mapped_port : String → String → ℕ → MappedPort
mapped_port namespace name port = record { namespace = namespace; name = name; port = port }

module _ (namespace name : String) (port : ℕ) where
  pub is_for_iff :
      (v : MappedPort)
      → (is_for namespace name port v ≡ true) ↔ (v ≡ mapped_port namespace name port)
  is_for_iff v =
      ground (arith, eq_iff v.name name, eq_iff v.namespace namespace, nat_beq_iff v.port port)

  find_in-lookup :
      (t : Table) (q : ℕ)
      → Unique t
      → find_in namespace name port t ≡ some q
      → lookup q t ≡ some (mapped_port namespace name port)
  unfolding find_in lookup
  find_in-lookup [] q u h = cc
  find_in-lookup ((r, w) ∷ t) q (fresh, u) h =
      ground (arith, is_for_iff w, nat_beq_iff r q, find_in-lookup t q u)

  find_in-ne-none :
      (t : Table) (q : ℕ)
      → lookup q t ≡ some (mapped_port namespace name port)
      → find_in namespace name port t ≢ none
  unfolding find_in lookup
  find_in-ne-none [] q h = cc
  find_in-ne-none ((r, w) ∷ t) q h =
      ground (arith, is_for_iff w, nat_beq_iff r q, find_in-ne-none t q)

  -- In a valid table Find returns a port exactly when the table maps that port to the service port,
  -- in whatever order the table lists its entries.
  pub find-eq-some_iff :
      (p : PortMapping) (q : ℕ)
      → IsValid p
      → (find p namespace name port ≡ some q)
        ↔ (lookup q p.table ≡ some (mapped_port namespace name port))
  unfolding find
  find-eq-some_iff p q v = (
    find_in-lookup p.table q v.unique,
    λ h. elim (Option-cases (find_in namespace name port p.table)) [
      | inl e ↦ absurd (find_in-ne-none p.table q h e)
      | inr (r, e) ↦ e ∙ ap some (v.single r q _ (find_in-lookup p.table r v.unique e) h)
    ],
  )

  -- Find depends on nothing but the mesh ports that map to the service port.
  pub find-eq-find :
      (p p' : PortMapping)
      → IsValid p
      → IsValid p'
      → ((r : ℕ)
          → (lookup r p.table ≡ some (mapped_port namespace name port))
            ↔ (lookup r p'.table ≡ some (mapped_port namespace name port)))
      → find p namespace name port ≡ find p' namespace name port
  find-eq-find p p' v v' same = elim (Option-cases (find p namespace name port)) [
    | inr (r, e) ↦
        e ∙ sym ((find-eq-some_iff p' r v').1 ((same r).0 ((find-eq-some_iff p r v).0 e)))
    | inl e ↦ elim (Option-cases (find p' namespace name port)) [
      | inl e' ↦ e ∙ sym e'
      | inr (r, e') ↦
          ((find-eq-some_iff p r v).1 ((same r).1 ((find-eq-some_iff p' r v').0 e'))) ∙ sym e'
    ]
  ]
