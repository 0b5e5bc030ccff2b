-- ===== src/Common/Int32.antt =====
-- Go's int32, as the bit pattern of the value: a number below 2 ^ 32.
use Prim.Native.Nat.{ℕ, ◌+◌, ◌%◌, ◌^◌, ◌<◌}
use mathlib.Core.Path.{◌≡◌}
use mathlib.Core.Bool.{Bool}
use native.Mathlib.Omega.{arith}
use maesh.Common.Tests.{leb}

-- `a + b`, which wraps around.
abbrev pub add32 : ℕ → ℕ → ℕ
add32 a b = (a + b) % 2 ^ 32

-- The place of a bit pattern in the signed order: the least int32 is at 0.
abbrev pub order32 : ℕ → ℕ
order32 a = (a + 2 ^ 31) % 2 ^ 32

-- `a <= b` on signed values.
abbrev pub le32 : ℕ → ℕ → Bool
le32 a b = leb (order32 a) (order32 b)

pub order32-inj : (a b : ℕ) → a < 2 ^ 32 → b < 2 ^ 32 → order32 a ≡ order32 b → a ≡ b
order32-inj a b ha hb h = omega arith

-- The successor, up to the greatest int32.
pub order32-add32 : (a b : ℕ) → order32 a < order32 b → order32 (add32 a 1) ≡ order32 a + 1
order32-add32 a b h = omega arith
