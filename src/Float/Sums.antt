-- ===== src/Float/Sums.antt =====
-- Addition of floats between 0 and 2 in units of 2 ^ -27, rounded to 24 significant bits, to nearest
-- with ties to even.
use ml_distributed_fraud_eng.Common.{ℕ, ◌+◌, ◌-◌, ◌*◌, ◌/◌, ◌%◌, ◌^◌, ltb, ◌==◌, if◌then◌else◌}

-- The multiple of `u` nearest to `n`.
abbrev nearest : ℕ → ℕ → ℕ
nearest u n =
    let q = n / u in
    let r = n % u in
    if ltb (2 * r) u
    then q * u
    else if ltb u (2 * r)
    then (q + 1) * u
    else if q % 2 == 0
    then q * u
    else (q + 1) * u

abbrev round24 : ℕ → ℕ
round24 n =
    if ltb n (2 ^ 24)
    then n
    else if ltb n (2 ^ 25)
    then nearest 2 n
    else if ltb n (2 ^ 26)
    then nearest 4 n
    else if ltb n (2 ^ 27)
    then nearest 8 n
    else nearest 16 n

-- From a pattern with biased exponent 123 to 127, or 0, to units: the significand, shifted.
abbrev units : ℕ → ℕ
units x = if x == 0 then 0 else (2 ^ 23 + x % 2 ^ 23) * 2 ^ (x / 2 ^ 23 - 123)

-- And back, for a number of units that is 0 or a rounded one from 2 ^ 23 on.
abbrev pattern_at : ℕ → ℕ → ℕ
pattern_at e n = (123 + e) * 2 ^ 23 + (n / 2 ^ e - 2 ^ 23)

abbrev from_units : ℕ → ℕ
from_units n =
    if n == 0
    then 0
    else if ltb n (2 ^ 24)
    then pattern_at 0 n
    else if ltb n (2 ^ 25)
    then pattern_at 1 n
    else if ltb n (2 ^ 26)
    then pattern_at 2 n
    else if ltb n (2 ^ 27)
    then pattern_at 3 n
    else pattern_at 4 n

-- `a + b` on floats.
unfoldable pub add32 : ℕ → ℕ → ℕ
add32 a b = from_units (round24 (units a + units b))
