-- ===== src/Common/Text/Lines.antt =====
-- Searches for a text of one line in a text of several lines.
use Prim.Native.Char.{Char, code}
use Prim.Native.String.{String, [], ◌∷◌}
use mathlib.Core.Bool.{false}
use mathlib.Core.Option.{Option, none, some}
use mathlib.Core.Path.{◌≡◌, refl, ap}
use mathlib.Core.Logic.{inl, inr}
use native.Mathlib.Omega.{arith}
use text.Mathlib.TextLemmas.{nil-append, cons-append}
use maesh.Common.Tests.{nat_beq, Option-cases}
use maesh.Common.Text.{strip_prefix, cut}
use maesh.Common.Text.Laws.{◌⧺◌, strip_prefix-append}

-- `sep` does not hold the code point `n`, which ends a line.
abbrev pub OneLine : Char → String → Type 0
OneLine n sep = cut (n ∷ []) sep ≡ none

cut-cons_none :
    (sep : String) (d : Char) (a : String)
    → cut sep (d ∷ a) ≡ none
    → (strip_prefix sep (d ∷ a) ≡ none) × (cut sep a ≡ none)
unfolding cut
cut-cons_none sep d a h = ground arith

module _ (n : Char) where
  OneLine-tail : (c : Char) (p : String) → OneLine n (c ∷ p) → OneLine n p
  unfolding cut strip_prefix
  OneLine-tail c p h = ground arith

  OneLine-head : (c : Char) (p : String) → OneLine n (c ∷ p) → nat_beq (code n) (code c) ≡ false
  unfolding cut strip_prefix
  OneLine-head c p h = ground arith

  strip_prefix-line :
      (p a t : String) → OneLine n p → strip_prefix p a ≡ none → strip_prefix p (a ⧺ (n ∷ t)) ≡ none
  unfolding strip_prefix
  strip_prefix-line [] a t o h = cc h
  strip_prefix-line (c ∷ p) [] t o h = rw nil-append (ground (arith, OneLine-head c p o))
  strip_prefix-line (c ∷ p) (d ∷ a) t o h =
      rw cons-append (ground (arith, strip_prefix-line p a t (OneLine-tail c p o)))

  module _ (c : Char) (p : String) (o : OneLine n (c ∷ p)) where
    miss : (t : String) → strip_prefix (c ∷ p) (n ∷ t) ≡ none
    unfolding strip_prefix
    miss t = ground (arith, OneLine-head c p o)

    miss-cons :
        (d : Char) (a t : String)
        → strip_prefix (c ∷ p) (d ∷ a) ≡ none
        → strip_prefix (c ∷ p) (d ∷ (a ⧺ (n ∷ t))) ≡ none
    miss-cons d a t h = rw cons-append at (strip_prefix-line (c ∷ p) (d ∷ a) t o h)

    -- The search goes past the lines that do not hold the text.
    pub cut-line :
        (a t x y : String)
        → cut (c ∷ p) a ≡ none
        → cut (c ∷ p) t ≡ some (x, y)
        → cut (c ∷ p) (a ⧺ (n ∷ t)) ≡ some (a ⧺ (n ∷ x), y)
    unfolding cut
    cut-line [] t x y h e = rw (nil-append (n ∷ t), nil-append (n ∷ x), cut, miss t, e) refl
    cut-line (d ∷ a) t x y h e =
        let (here, later) = cut-cons_none (c ∷ p) d a h in
        rw
          (
            cons-append d a (n ∷ t),
            cons-append d a (n ∷ x),
            cut,
            miss-cons d a t here,
            cut-line a t x y later e,
          )
          refl

    pub cut-line_none :
        (a t : String)
        → cut (c ∷ p) a ≡ none
        → cut (c ∷ p) t ≡ none
        → cut (c ∷ p) (a ⧺ (n ∷ t)) ≡ none
    unfolding cut
    cut-line_none [] t h e = rw (nil-append (n ∷ t), cut, miss t, e) refl
    cut-line_none (d ∷ a) t h e =
        let (here, later) = cut-cons_none (c ∷ p) d a h in
        rw (cons-append d a (n ∷ t), cut, miss-cons d a t here, cut-line_none a t later e) refl

    -- The same, with the end of the line as a text.
    pub cut-next_line :
        (a t x y : String)
        → cut (c ∷ p) a ≡ none
        → cut (c ∷ p) t ≡ some (x, y)
        → cut (c ∷ p) (a ⧺ ((n ∷ []) ⧺ t)) ≡ some (a ⧺ ((n ∷ []) ⧺ x), y)
    cut-next_line a t x y h e =
        rw (cons-append n [] t, nil-append t, cons-append n [] x, nil-append x)
          (cut-line a t x y h e)

    pub cut-next_line_none :
        (a t : String)
        → cut (c ∷ p) a ≡ none
        → cut (c ∷ p) t ≡ none
        → cut (c ∷ p) (a ⧺ ((n ∷ []) ⧺ t)) ≡ none
    cut-next_line_none a t h e = rw (cons-append n [] t, nil-append t) (cut-line_none a t h e)

-- A text at the start of which `sep` stands.
pub cut_self : (c : Char) (p t : String) → cut (c ∷ p) ((c ∷ p) ⧺ t) ≡ some ([], t)
unfolding cut
cut_self c p t =
    let here : strip_prefix (c ∷ p) (c ∷ (p ⧺ t)) ≡ some t =
      rw cons-append at (strip_prefix-append (c ∷ p) t) in
    rw (cons-append c p t, cut, here) refl

strip_prefix-longer_none :
    (h k s : String) → strip_prefix h s ≡ none → strip_prefix (h ⧺ k) s ≡ none
unfolding strip_prefix
strip_prefix-longer_none [] k s e = cc e
strip_prefix-longer_none (c ∷ h) k [] e = rw cons-append refl
strip_prefix-longer_none (c ∷ h) k (d ∷ s) e =
    rw cons-append (ground (arith, strip_prefix-longer_none h k s))

strip_prefix-longer :
    (h k s r : String) → strip_prefix h s ≡ some r → strip_prefix (h ⧺ k) s ≡ strip_prefix k r
unfolding strip_prefix
strip_prefix-longer [] k s r e = rw nil-append (ground arith)
strip_prefix-longer (c ∷ h) k [] r e = cc e
strip_prefix-longer (c ∷ h) k (d ∷ s) r e =
    rw cons-append (ground (arith, strip_prefix-longer h k s r))

same_parts :
    (a b x y : String)
    → ◌≡◌ {A = Option (String × String)} (some (a, b)) (some (x, y))
    → (a ≡ x) × (b ≡ y)
same_parts a b x y e = ground arith

-- The search for a longer text ends at the first place of its beginning, if it goes on there.
pub cut-longer :
    (h k s x y z : String)
    → cut h s ≡ some (x, y)
    → strip_prefix k y ≡ some z
    → cut (h ⧺ k) s ≡ some (x, z)
unfolding cut
cut-longer h k [] x y z e g = elim (Option-cases (strip_prefix h [])) [
  | inl f ↦ absurd (ground arith)
  | inr (r, f) ↦
      let (x_eq, y_eq) = same_parts [] r x y (ground arith) in
      rw (strip_prefix-longer h k [] r f, y_eq, g) (ap (λ (a : String). some (a, z)) x_eq)
]
cut-longer h k (d ∷ s) x y z e g = elim (Option-cases (strip_prefix h (d ∷ s))) [
  | inr (r, f) ↦
      let (x_eq, y_eq) = same_parts [] r x y (ground arith) in
      rw (cut, strip_prefix-longer h k (d ∷ s) r f, y_eq, g) (ap (λ (a : String). some (a, z)) x_eq)
  | inl f ↦ elim (Option-cases (cut h s)) [
    | inl c ↦ absurd (ground arith)
    | inr ((x', y'), c) ↦
        let (x_eq, y_eq) = same_parts (d ∷ x') y' x y (ground arith) in
        rw (cut, strip_prefix-longer_none h k (d ∷ s) f, cut-longer h k s x' y' z c (rw y_eq g))
          (ap (λ (a : String). some (a, z)) x_eq)
  ]
]
