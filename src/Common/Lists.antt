-- ===== src/Common/Lists.antt =====
-- Lists measured by native numbers, and predicates on their elements.
use Prim.Native.Nat.{ℕ, suc, ◌+◌}
use mathlib.Core.Path.{◌≡◌, refl, sym, subst}
use mathlib.Core.List.{List, [], ◌∷◌, ◌++◌}
use mathlib.Core.Logic.{◌⊎◌, inl, inr, ◌↔◌}
use native.Mathlib.Omega.{arith}

module _ {ℓ} {A : Type ℓ} where
  abbrev pub length : List A → ℕ
  length [] = 0
  length (x ∷ xs) = suc (length xs)

  pub length-append : (xs ys : List A) → length (xs ++ ys) ≡ length xs + length ys
  length-append [] ys = omega arith
  length-append (x ∷ xs) ys = omega (arith, length-append xs ys)

module _ {ℓ κ} {A : Type ℓ} (P : A → Type κ) where
  abbrev pub All : List A → Type κ
  All [] = Unit
  All (x ∷ xs) = P x × All xs

  pub All-append : (xs ys : List A) → All xs → All ys → All (xs ++ ys)
  All-append [] ys _ hy = hy
  All-append (x ∷ xs) ys (px, hx) hy = (px, All-append xs ys hx hy)

-- Membership, by recursion, so that the tactics take it apart.
abbrev pub In : {A : Type 0} → A → List A → Type 0
In a [] = ⊥
In a (x ∷ xs) = (a ≡ x) ⊎ In a xs

pub All-iff : {A : Type 0} (P : A → Type 0) (xs : List A) → All P xs ↔ ((x : A) → In x xs → P x)
All-iff P [] = ((λ _ x i. absurd i), λ _. tt)
All-iff P (y ∷ xs) = (
  (λ (p, ps) x i. elim i [ inl e ↦ subst P (sym e) p | inr j ↦ (All-iff P xs).0 ps x j ]),
  λ h. (h y (inl refl), (All-iff P xs).1 λ x i. h x (inr i)),
)

pub In-append : {A : Type 0} (a : A) (xs ys : List A) → In a (xs ++ ys) ↔ (In a xs ⊎ In a ys)
In-append a [] ys = (inr, λ i. elim i [ inl b ↦ absurd b | inr j ↦ j ])
In-append a (x ∷ xs) ys =
    let r = In-append a xs ys in
    (
      (λ i. elim i [
        | inl e ↦ inl (inl e)
        | inr j ↦ (elim (r.0 j) [ inl l ↦ inl (inr l) | inr l ↦ inr l ])
      ]),
      λ i. elim i [
        | inl l ↦ (elim l [ inl e ↦ inl e | inr j ↦ inr (r.1 (inl j)) ])
        | inr j ↦ inr (r.1 (inr j))
      ],
    )

pub List-cases {ℓ} :
    {A : Type ℓ} (xs : List A) → (xs ≡ []) ⊎ ((x : A) × (ys : List A) × (xs ≡ x ∷ ys))
List-cases [] = inl refl
List-cases (x ∷ xs) = inr (x, xs, refl)
