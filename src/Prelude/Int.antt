-- ===== src/Prelude/Int.antt =====
-- Integers over the native numbers, and the values of the JavaScript type `number`.
use Prim.Native.Nat.{ℕ, suc, ◌+◌, ◌<◌, ◌≤◌}
use mathlib.Core.Bool.{Bool}
use gove.Prelude.Tests.{ltb}

-- `negsuc n` is -(n + 1).
pub data ℤ : Type 0 where
  pos : ℕ → ℤ
  negsuc : ℕ → ℤ

abbrev pub pos_part : ℤ → ℕ
pos_part (pos n) = n
pos_part (negsuc n) = 0

abbrev pub neg_part : ℤ → ℕ
neg_part (pos n) = 0
neg_part (negsuc n) = suc n

-- `a < b`
abbrev pub ltb_ℤ : ℤ → ℤ → Bool
ltb_ℤ a b = ltb (pos_part a + neg_part b) (pos_part b + neg_part a)

infix 50 ◌<ℤ◌ ◌≤ℤ◌
abbrev pub ◌<ℤ◌ : ℤ → ℤ → Type 0
a <ℤ b = pos_part a + neg_part b < pos_part b + neg_part a

abbrev pub ◌≤ℤ◌ : ℤ → ℤ → Type 0
a ≤ℤ b = pos_part a + neg_part b ≤ pos_part b + neg_part a

-- A `number`: an integer, or a value for which `Number.isInteger` is false (a fraction, NaN or an
-- infinity). Negative zero is the integer 0.
pub data Number : Type 0 where
  int : ℤ → Number
  not_integer : Number

pattern abbrev pub nat : ℕ → Number
nat n = int (pos n)

-- Number.MAX_SAFE_INTEGER
abbrev pub max_safe_integer : ℕ
max_safe_integer = 9007199254740991

-- A `number` where it is only compared: a finite double, counted in units of 2^-1074, of which every
-- finite double is a multiple; or NaN or an infinity.
pub data Double : Type 0 where
  finite : ℤ → Double
  not_finite : Double
