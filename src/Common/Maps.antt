-- ===== src/Common/Maps.antt =====
-- Go's maps, as association lists in the order in which the run iterates over them. The laws are
-- stated through `lookup`; what holds for every list holds for every iteration order.
use mathlib.Core.Path.{◌≡◌, refl}
use mathlib.Core.List.{List, [], ◌∷◌}
use mathlib.Core.Option
use mathlib.Core.Option.{Option, none, some}
use native.Mathlib.Omega.{arith}
use maesh.Common.Tests.{Comparable, ◌==◌, if◌then◌else◌}

module _ {ℓ κ} {K : Type ℓ} {V : Type κ} ⦃e : Comparable K⦄ where
  -- `m[k]`; `none` is the missing key.
  unfoldable pub lookup : K → List (K × V) → Option V
  lookup k [] = none
  lookup k ((k', v) ∷ entries) = if k' == k then some v else lookup k entries

  -- `m[k] = v`.
  unfoldable pub insert : K → V → List (K × V) → List (K × V)
  insert k v [] = (k, v) ∷ []
  insert k v ((k', old) ∷ entries) =
      if k' == k then (k, v) ∷ entries else (k', old) ∷ insert k v entries

  -- `delete(m, k)`.
  unfoldable pub erase : K → List (K × V) → List (K × V)
  erase k [] = []
  erase k ((k', v) ∷ entries) =
      let rest = erase k entries in if k' == k then rest else (k', v) ∷ rest

  -- A write through the pointer `m[k]`; nothing happens at a missing key.
  unfoldable pub modify : K → (V → V) → List (K × V) → List (K × V)
  modify k f [] = []
  modify k f ((k', v) ∷ entries) =
      if k' == k then (k', f v) ∷ entries else (k', v) ∷ modify k f entries

  pub lookup-insert :
      (k k' : K) (v : V) (entries : List (K × V))
      → lookup k' (insert k v entries) ≡ (if k == k' then some v else lookup k' entries)
  unfolding lookup insert
  lookup-insert k k' v [] = refl
  lookup-insert k k' v ((l, old) ∷ entries) =
      ground (arith, e.same_iff k k', e.same_iff l k, e.same_iff l k', lookup-insert k k' v entries)

  pub lookup-erase :
      (k k' : K) (entries : List (K × V))
      → lookup k' (erase k entries) ≡ (if k == k' then none else lookup k' entries)
  unfolding lookup erase
  lookup-erase k k' [] = ground arith
  lookup-erase k k' ((l, old) ∷ entries) =
      ground (arith, e.same_iff k k', e.same_iff l k, e.same_iff l k', lookup-erase k k' entries)

  pub lookup-modify :
      (k k' : K) (f : V → V) (entries : List (K × V))
      → lookup k' (modify k f entries)
        ≡ (if k == k' then Option.map f (lookup k' entries) else lookup k' entries)
  unfolding lookup modify
  lookup-modify k k' f [] = ground arith
  lookup-modify k k' f ((l, old) ∷ entries) =
      ground (arith, e.same_iff k k', e.same_iff l k, e.same_iff l k', lookup-modify k k' f entries)

  -- No key stands twice, as in any map that `insert` and `erase` have built.
  abbrev pub Unique : List (K × V) → Type κ
  Unique [] = Unit
  Unique ((k, v) ∷ entries) = (lookup k entries ≡ none) × Unique entries

  pub insert-Unique :
      (k : K) (v : V) (entries : List (K × V)) → Unique entries → Unique (insert k v entries)
  unfolding insert lookup
  insert-Unique k v [] u = (refl, tt)
  insert-Unique k v ((l, old) ∷ entries) (fresh, u) = ground (
    arith,
    e.same_iff l k,
    e.same_iff k l,
    lookup-insert k l v entries,
    insert-Unique k v entries u,
  )

  pub erase-Unique : (k : K) (entries : List (K × V)) → Unique entries → Unique (erase k entries)
  unfolding erase
  erase-Unique k [] u = tt
  erase-Unique k ((l, old) ∷ entries) (fresh, u) =
      ground
        (arith, e.same_iff l k, e.same_iff k l, lookup-erase k l entries, erase-Unique k entries u)

  pub lookup-insert_self :
      (k : K) (v : V) (entries : List (K × V)) → lookup k (insert k v entries) ≡ some v
  lookup-insert_self k v entries = rw (lookup-insert k k v entries, (e.same_iff k k).1 refl)

  pub lookup-erase_self : (k : K) (entries : List (K × V)) → lookup k (erase k entries) ≡ none
  lookup-erase_self k entries = rw (lookup-erase k k entries, (e.same_iff k k).1 refl)
