-- ===== src/Common/Text/Laws.antt =====
-- Laws of the searches in texts.
use Prim.Native.String
use Prim.Native.String.{String, [], ◌∷◌}
use Prim.Native.Char.{Char, code}
use mathlib.Core.Option.{none, some}
use mathlib.Core.Path.{◌≡◌, refl, ap, ◌∙◌}
use native.Mathlib.Omega.{arith}
use text.Mathlib.TextLemmas.{nil-append, cons-append, append-nil}
use maesh.Common.Tests.{nat_beq_iff}
use maesh.Common.Text.{strip_prefix, cut, cut_last}

infixr 65 ◌⧺◌
abbrev pub ◌⧺◌ : String → String → String
s ⧺ t = String.◌++◌ s t

pub strip_prefix-append : (p s : String) → strip_prefix p (p ⧺ s) ≡ some s
unfolding strip_prefix
strip_prefix-append [] s = rw nil-append
strip_prefix-append (c ∷ p) s =
    rw (cons-append, (nat_beq_iff (code c) (code c)).1 refl) (strip_prefix-append p s)

cut_last_of_cut : (sep s : String) → cut sep s ≡ none → cut_last sep s ≡ none
unfolding cut cut_last
cut_last_of_cut sep [] h = h
cut_last_of_cut sep (c ∷ s) h = ground (arith, cut_last_of_cut sep s)

-- The last separator, where none begins later.
cut_last-here :
    (c : Char) (sep t : String)
    → cut (c ∷ sep) (sep ⧺ t) ≡ none
    → cut_last (c ∷ sep) ((c ∷ sep) ⧺ t) ≡ some ([], t)
unfolding cut_last
cut_last-here c sep t h =
    let here : strip_prefix (c ∷ sep) (c ∷ (sep ⧺ t)) ≡ some t =
      rw cons-append at (strip_prefix-append (c ∷ sep) t) in
    rw (cons-append, cut_last_of_cut (c ∷ sep) (sep ⧺ t) h, cut_last, here)

cut_last-append :
    (sep s u a b : String) → cut_last sep u ≡ some (a, b) → cut_last sep (s ⧺ u) ≡ some (s ⧺ a, b)
unfolding cut_last
cut_last-append sep [] u a b h = rw (nil-append u, nil-append a) h
cut_last-append sep (c ∷ s) u a b h =
    rw (cons-append c s u, cons-append c s a, cut_last-append sep s u a b h, cut_last)

-- The text before the last separator and the text behind it.
pub cut_last_lem :
    (c : Char) (sep s t : String)
    → cut (c ∷ sep) (sep ⧺ t) ≡ none
    → cut_last (c ∷ sep) (s ⧺ ((c ∷ sep) ⧺ t)) ≡ some (s, t)
cut_last_lem c sep s t h =
    cut_last-append (c ∷ sep) s _ [] t (cut_last-here c sep t h)
    ∙ ap (λ (a : String). some (a, t)) (append-nil s)

-- The text before a separator of one code point, if it does not hold the separator.
pub cut-append :
    (c : Char) (s t : String)
    → cut (c ∷ []) s ≡ none
    → cut (c ∷ []) (s ⧺ ((c ∷ []) ⧺ t)) ≡ some (s, t)
unfolding cut strip_prefix
cut-append c [] t h =
    let here : strip_prefix (c ∷ []) (c ∷ t) ≡ some t =
      rw (cons-append, nil-append) at (strip_prefix-append (c ∷ []) t) in
    rw (nil-append, cons-append, nil-append, cut, here)
cut-append c (d ∷ s) t h = rw cons-append (ground (arith, cut-append c s t))

pub cut-append_none :
    (c : Char) (s t : String)
    → cut (c ∷ []) s ≡ none
    → cut (c ∷ []) t ≡ none
    → cut (c ∷ []) (s ⧺ t) ≡ none
unfolding cut strip_prefix
cut-append_none c [] t h g = rw nil-append g
cut-append_none c (d ∷ s) t h g = rw cons-append (ground (arith, cut-append_none c s t))
