-- ===== src/Controller/PortMapping/Add.antt =====
-- What `Add` allocates.
use maesh.Common.{
  ℕ, zero, suc, ◌+◌, ◌-◌, ◌^◌, ◌≤◌, ◌<◌, String, none, ◌≡◌, ◌≢◌, refl, inl, inr, lookup, insert,
  arith, Bool-cases, Option-cases, leb→le, nat_eq,
}
use maesh.Common.Int32.{add32, order32, le32}
use native.Mathlib.Decide.{ℕ_discrete}
use maesh.Controller.PortMapping.{
  PortMapping, MappedPort, Allocation, allocated, no_port, out_of_fuel, add_from, add, rounds,
}

-- The ports of the range from `i` up to below `j`, in the signed order, are all taken.
abbrev pub TakenBetween : PortMapping → ℕ → ℕ → Type 0
TakenBetween p i j =
    (k : ℕ) → k < 2 ^ 32 → order32 i ≤ order32 k → order32 k < j → lookup k p.table ≢ none

-- A port is allocated: it is the first free one of the range, and only its entry is new.
pub record IsFirstFree (p : PortMapping) (v : MappedPort) (i q : ℕ) (p' : PortMapping)
    : Type 0 where
  pub word : q < 2 ^ 32
  pub low : order32 i ≤ order32 q
  pub high : order32 q ≤ order32 p.max_port
  pub free : lookup q p.table ≡ none
  pub first : TakenBetween p i (order32 q)
  pub entry : p' ≡ record p { table = insert q v p.table }

-- What the loop promises from port `i` on.
abbrev pub Allocates : PortMapping → MappedPort → ℕ → Allocation → Type 0
Allocates p v i (allocated q p') = IsFirstFree p v i q p'
Allocates p v i no_port = TakenBetween p i (order32 p.max_port + 1)
Allocates p v i out_of_fuel = ⊥

module _ (p : PortMapping) (v : MappedPort) where
  -- An entry for `i` covers the step from `i` to the next port.
  TakenBetween-step :
      (i j : ℕ)
      → i < 2 ^ 32
      → order32 i < 2 ^ 32 - 1
      → lookup i p.table ≢ none
      → TakenBetween p (add32 i 1) j
      → TakenBetween p i j
  TakenBetween-step i j wi room taken rest k wk lo hi = elim (ℕ_discrete i k) [
    | yes e ↦ rw (← e) taken
    | no n ↦ rest k wk (omega arith) hi
  ]

  Allocates-step :
      (i : ℕ)
      → i < 2 ^ 32
      → order32 i < 2 ^ 32 - 1
      → lookup i p.table ≢ none
      → (r : Allocation) → Allocates p v (add32 i 1) r
      → Allocates p v i r
  Allocates-step i wi room taken (allocated q p') h = record {
    word = h.word;
    low = omega (arith, h.low);
    high = h.high;
    free = h.free;
    first = TakenBetween-step i (order32 q) wi room taken h.first;
    entry = h.entry;
  }
  Allocates-step i wi room taken no_port h =
      TakenBetween-step i (order32 p.max_port + 1) wi room taken h
  Allocates-step i wi room taken out_of_fuel h = h

  add_from-Allocates :
      (fuel i : ℕ)
      → i < 2 ^ 32
      → order32 p.max_port < 2 ^ 32 - 1
      → order32 p.max_port + 2 ≤ order32 i + fuel
      → 0 < fuel
      → Allocates p v i (add_from fuel i p v)
  unfolding add_from
  add_from-Allocates zero i wi room enough pos = absurd (omega arith)
  add_from-Allocates (suc fuel) i wi room enough pos = elim (Bool-cases (le32 i p.max_port)) [
    | inl inside ↦ elim (Option-cases (lookup i p.table)) [
      | inl free ↦
          rw (inside, free)
            (record {
              word = wi;
              low = omega arith;
              high = leb→le _ _ inside;
              free = free;
              first = λ k wk lo hi. absurd (omega arith);
              entry = refl;
            })
      | inr (w, taken) ↦
          let le : order32 i ≤ order32 p.max_port = leb→le _ _ inside in
          rw (inside, taken)
            (Allocates-step i wi (omega arith) (λ e. cc) _
              (add_from-Allocates fuel (add32 i 1) (omega arith) room (omega arith) (omega arith)))
    ]
    | inr outside ↦ rw outside (λ k wk lo hi. absurd (ground arith))
  ]

-- Add on every branch, for a range that ends below the greatest int32: it always returns. A port
-- that it allocates is the first free one between the least and the greatest port, and the table
-- gets its entry and no other change; the error comes only when every port of the range is taken.
pub add-Allocates :
    (p : PortMapping) (namespace name : String) (port : ℕ)
    → p.min_port < 2 ^ 32
    → order32 p.max_port < 2 ^ 32 - 1
    → Allocates p
        (record { namespace = namespace; name = name; port = port })
        p.min_port
        (add p namespace name port)
unfolding add
add-Allocates p namespace name port low high =
    add_from-Allocates p _ (rounds p) p.min_port low high (omega arith) (omega arith)
