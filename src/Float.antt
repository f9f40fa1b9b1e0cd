-- ===== src/Float.antt =====
-- The floating point that the C++ files use. A `double` is its 64-bit pattern and a `float` its 32-bit
-- pattern (IEEE 754). Comparisons are defined on the patterns. Addition of floats is defined for the
-- operands that occur, 0 and the numbers from 2 ^ -4 up to 1, whose sums stay below 2: there every value
-- is a whole number of units of 2 ^ -27. Division and widening are parameters, the record `Fpu`.
mod Sums
unfoldable pub use Sums.*
use ml_distributed_fraud_eng.Common.{
  ℕ, ◌+◌, ◌-◌, ◌*◌, ◌%◌, ◌^◌, ◌≤◌, ◌<◌, ◌≡◌, Bool, not, ◌&&◌, ltb, leb, if◌then◌else◌, true, false,
  arith,
}

-- What the processor does beyond comparing and adding.
pub record Fpu : Type 0 where
  pub divide : ℕ → ℕ → ℕ  -- of doubles
  pub widen : ℕ → ℕ  -- from float to double

abbrev pub is_nan64 : ℕ → Bool
is_nan64 x = ltb 0x7FF0_0000_0000_0000 (x % 2 ^ 63)

-- Numbers in the order of the doubles that are no NaN; both zeros have one key.
abbrev pub key64 : ℕ → ℕ
key64 x = if ltb x (2 ^ 63) then 2 ^ 63 + x else 2 ^ 64 - x

-- `a > b` on doubles.
unfoldable pub gt64 : ℕ → ℕ → Bool
gt64 a b = not (is_nan64 a) && not (is_nan64 b) && ltb (key64 b) (key64 a)

abbrev pub is_nan32 : ℕ → Bool
is_nan32 x = ltb 0x7F80_0000 (x % 2 ^ 31)

abbrev pub key32 : ℕ → ℕ
key32 x = if ltb x (2 ^ 31) then 2 ^ 31 + x else 2 ^ 32 - x

-- `a > b` on floats.
unfoldable pub gt32 : ℕ → ℕ → Bool
gt32 a b = not (is_nan32 a) && not (is_nan32 b) && ltb (key32 b) (key32 a)

-- On patterns of numbers that are not negative the order of floats is that of the patterns.
pub gt32-ltb : (a b : ℕ) → a ≤ 0x7F80_0000 → b ≤ 0x7F80_0000 → gt32 a b ≡ ltb b a
unfolding gt32
gt32-ltb a b h k = ground arith

-- The literal 0.85f.
abbrev pub f0_85 : ℕ
f0_85 = 0x3F59_999A
