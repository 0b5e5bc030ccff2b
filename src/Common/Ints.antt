-- ===== src/Common/Ints.antt =====
-- Signed numbers, and `strconv.Atoi`.
use Prim.Native.Char.{Char, code}
use Prim.Native.Nat.{ℕ, ◌+◌, ◌-◌, ◌*◌, ◌^◌}
use Prim.Native.String.{String, [], ◌∷◌}
use mathlib.Core.Bool.{Bool, true, ◌&&◌}
use mathlib.Core.Option.{Option, none, some}
use maesh.Common.Tests.{leb, nat_beq, if◌then◌else◌}

-- `negsuc n` is -(n + 1).
pub data ℤ : Type 0 where
  pos : ℕ → ℤ
  negsuc : ℕ → ℤ

abbrev pub negate : ℕ → ℤ
negate n = if nat_beq n 0 then pos 0 else negsuc (n - 1)

-- `z <= 0`
abbrev pub is_not_positive : ℤ → Bool
is_not_positive (pos n) = nat_beq n 0
is_not_positive (negsuc n) = true

is_digit : Char → Bool
is_digit c = leb b'0' (code c) && leb (code c) b'9'

scan : String → ℕ → Option ℕ
scan [] n = some n
scan (c ∷ s) n = let rest = scan s (n * 10 + (code c - b'0')) in if is_digit c then rest else none

-- At least one digit, and digits only.
magnitude : String → Option ℕ
unfolding scan is_digit
magnitude [] = none
magnitude (c ∷ s) = scan (c ∷ s) 0

-- A magnitude within the bound, given its sign.
within : ℕ → (ℕ → ℤ) → Option ℕ → Option ℤ
within bound signed none = none
within bound signed (some n) = if leb n bound then some (signed n) else none

-- An optional sign and decimal digits, within the range of a 64-bit int.
unfoldable pub atoi : String → Option ℤ
unfolding magnitude within
atoi [] = none
atoi (c ∷ s) =
    if nat_beq (code c) b'-'
    then within (2 ^ 63) negate (magnitude s)
    else if nat_beq (code c) b'+'
    then within (2 ^ 63 - 1) pos (magnitude s)
    else within (2 ^ 63 - 1) pos (magnitude (c ∷ s))
