-- ===== src/Chars.antt =====
-- `std::from_chars` to integers, as the C++ standard describes it, on a range of bytes: an optional
-- minus sign and the longest run of digits. The old value stays where there is no number, or none that
-- fits. The result is the bit pattern of a `w`-bit integer.
pub mod Decimal
use ml_distributed_fraud_eng.Common.{
  ℕ, ◌+◌, ◌-◌, ◌*◌, ◌%◌, ◌^◌, Bool, ◌&&◌, List, [], ◌∷◌, ltb, leb, ◌==◌, if◌then◌else◌,
}

abbrev pub is_digit : ℕ → Bool
is_digit c = leb b'0' c && leb c b'9'

-- The longest run of digits at the front.
unfoldable pub digit_run : List ℕ → List ℕ
digit_run [] = []
digit_run (c ∷ cs) = if is_digit c then c ∷ digit_run cs else []

-- The number that digits stand for, after those that gave `acc`.
unfoldable pub number : ℕ → List ℕ → ℕ
number acc [] = acc
number acc (c ∷ cs) = number (10 * acc + (c - b'0')) cs

unfoldable pub positive_value : ℕ → List ℕ → ℕ → ℕ
unfolding number
positive_value w [] old = old
positive_value w (c ∷ cs) old = let n = number 0 (c ∷ cs) in if ltb n (2 ^ (w - 1)) then n else old

unfoldable pub negative_value : ℕ → List ℕ → ℕ → ℕ
unfolding number
negative_value w [] old = old
negative_value w (c ∷ cs) old =
    let n = number 0 (c ∷ cs) in if leb n (2 ^ (w - 1)) then (2 ^ w - n) % 2 ^ w else old

-- `from_chars(first, last, value)` for a signed integer of `w` bits with the old value `old`.
unfoldable pub from_chars : ℕ → List ℕ → ℕ → ℕ
unfolding positive_value negative_value digit_run
from_chars w [] old = old
from_chars w (c ∷ cs) old =
    if c == b'-'
    then negative_value w (digit_run cs) old
    else positive_value w (digit_run (c ∷ cs)) old
