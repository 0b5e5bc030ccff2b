-- ===== src/Common/Text.antt =====
-- What the program uses of Go's `strings` and of `fmt`: texts are walked code point by code point,
-- which finds the same places as a walk over the bytes of valid UTF-8.
pub mod Laws
pub mod Lines
use Prim.Native.Char.{Char, code}
use Prim.Native.Nat.{ℕ, zero, suc, ◌+◌, ◌-◌, ◌/◌, ◌%◌, ◌^◌}
use Prim.Native.String
use Prim.Native.String.{String, [], ◌∷◌}
use mathlib.Core.Bool.{Bool, true, false}
use mathlib.Core.Option
use mathlib.Core.Option.{Option, none, some}
use mathlib.Core.List.{List}
use maesh.Common.Tests.{if◌then◌else◌, nat_beq, ltb}

-- `fmt.Sprintf` with `%s`, as the list of the pieces.
abbrev pub concat : List String → String
concat List.[] = ""
concat (List.◌∷◌ s ss) = String.◌++◌ s (concat ss)

-- `strings.Join`.
unfoldable pub join : List String → String → String
join List.[] sep = ""
join (List.◌∷◌ s List.[]) sep = s
join (List.◌∷◌ s (List.◌∷◌ t ts)) sep = String.◌++◌ s (String.◌++◌ sep (join (List.◌∷◌ t ts) sep))

-- What stands behind the prefix, if the text begins with it (`strings.HasPrefix`, `TrimPrefix`).
unfoldable pub strip_prefix : String → String → Option String
strip_prefix [] s = some s
strip_prefix (c ∷ p) [] = none
strip_prefix (c ∷ p) (d ∷ s) = if nat_beq (code c) (code d) then strip_prefix p s else none

-- `strings.HasPrefix`.
unfoldable pub has_prefix : String → String → Bool
has_prefix s p = elim (strip_prefix p s) [ none ↦ false | some _ ↦ true ]

abbrev pub behind : Char → String × String → String × String
behind c (before, after) = (c ∷ before, after)

-- The text before and behind the first occurrence of `sep` (`strings.Index`, `SplitN(s, sep, 2)`).
unfoldable pub cut : String → String → Option (String × String)
cut sep [] = Option.map (λ rest. ([], rest)) (strip_prefix sep [])
cut sep (c ∷ s) = elim (strip_prefix sep (c ∷ s)) [
  | some rest ↦ some ([], rest)
  | none ↦ Option.map (behind c) (cut sep s)
]

-- The text before and behind the last occurrence of `sep`.
unfoldable pub cut_last : String → String → Option (String × String)
cut_last sep [] = Option.map (λ rest. ([], rest)) (strip_prefix sep [])
cut_last sep (c ∷ s) = elim (cut_last sep s) [
  | some parts ↦ some (behind c parts)
  | none ↦ Option.map (λ rest. ([], rest)) (strip_prefix sep (c ∷ s))
]

-- `strings.Contains`.
unfoldable pub has_infix : String → String → Bool
has_infix s sep = elim (cut sep s) [ none ↦ false | some _ ↦ true ]

-- One round of the count: how many places of `sep` are counted, and how many code points the last
-- one still covers.
count_step : Bool → ℕ → ℕ → ℕ × ℕ
count_step true zero size = (1, size - 1)
count_step false zero size = (0, 0)
count_step _ (suc covered) size = (0, covered)

count_from : String → ℕ → String → ℕ
unfolding has_prefix count_step
count_from sep covered [] = 0
count_from sep covered (c ∷ s) =
    let (found, covered') = count_step (has_prefix (c ∷ s) sep) covered (String.count sep) in
    found + count_from sep covered' s

-- `strings.Count` for a separator that is not empty: places that do not overlap.
unfoldable pub count_infix : String → String → ℕ
unfolding count_from
count_infix s sep = count_from sep 0 s

-- `strings.ReplaceAll(s, ".", with)`.
unfoldable pub replace_dots : String → String → String
replace_dots with [] = ""
replace_dots with (c ∷ s) =
    let rest = replace_dots with s in
    String.◌++◌ (if nat_beq (code c) 46 then with else c ∷ "") rest

digit : ℕ → String
digit zero = "0"
digit (suc zero) = "1"
digit (suc (suc zero)) = "2"
digit (suc (suc (suc zero))) = "3"
digit (suc (suc (suc (suc zero)))) = "4"
digit (suc (suc (suc (suc (suc zero))))) = "5"
digit (suc (suc (suc (suc (suc (suc zero)))))) = "6"
digit (suc (suc (suc (suc (suc (suc (suc zero))))))) = "7"
digit (suc (suc (suc (suc (suc (suc (suc (suc zero)))))))) = "8"
digit _ = "9"

-- The decimal digits of a number below 10 ^ fuel, in front of `out`.
digits : ℕ → ℕ → String → String
digits zero n out = out
digits (suc fuel) n out =
    let out' = String.◌++◌ (digit (n % 10)) out in
    let rest = digits fuel (n / 10) out' in if ltb n 10 then out' else rest

-- `%d` of an int32, given as its bit pattern: ten digits are enough.
unfoldable pub decimal32 : ℕ → String
unfolding digits digit
decimal32 n = if ltb n (2 ^ 31) then digits 10 n "" else String.◌++◌ "-" (digits 10 (2 ^ 32 - n) "")
