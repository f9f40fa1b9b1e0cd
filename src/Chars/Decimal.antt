-- ===== src/Chars/Decimal.antt =====
-- Decimal numerals, and what `std::from_chars` and `std::stoi` read of them.
use ml_distributed_fraud_eng.Common.{
  ℕ, zero, suc, ◌+◌, ◌-◌, ◌*◌, ◌/◌, ◌%◌, ◌^◌, ◌≤◌, ◌<◌, ◌≡◌, refl, sym, ap, subst, ◌∙◌, true, false,
  List, [], ◌∷◌, ◌++◌, arith, ltb, ◌==◌, if◌then◌else◌, All, ◌⊎◌, inl, inr,
}
use ml_distributed_fraud_eng.Text.{is_empty}
use ml_distributed_fraud_eng.Chars.{
  is_digit, digit_run, number, positive_value, negative_value, from_chars,
}

-- The decimal numeral of a number, the leading digit first.
unfoldable pub decimal_from : ℕ → ℕ → List ℕ
decimal_from zero n = []
decimal_from (suc fuel) n =
    let rest = decimal_from fuel (n / 10) in
    if ltb n 10 then (b'0' + n) ∷ [] else rest ++ (b'0' + n % 10) ∷ []

unfoldable pub decimal : ℕ → List ℕ
unfolding decimal_from
decimal n = decimal_from (n + 1) n

abbrev pub AllDigits : List ℕ → Type 0
AllDigits = All (λ c. is_digit c ≡ true)

AllDigits-append_one :
    (cs : List ℕ) (c : ℕ) → AllDigits cs → is_digit c ≡ true → AllDigits (cs ++ c ∷ [])
AllDigits-append_one [] c h k = (k, tt)
AllDigits-append_one (d ∷ cs) c (h, hs) k = (h, AllDigits-append_one cs c hs k)

pub digit_run-AllDigits : (cs : List ℕ) → AllDigits cs → digit_run cs ≡ cs
unfolding digit_run
digit_run-AllDigits [] h = refl
digit_run-AllDigits (c ∷ cs) (h, hs) = rw (h, digit_run-AllDigits cs hs) refl

number-append_one :
    (acc : ℕ) (cs : List ℕ) (c : ℕ) → number acc (cs ++ c ∷ []) ≡ 10 * number acc cs + (c - b'0')
unfolding number
number-append_one acc [] c = refl
number-append_one acc (d ∷ cs) c = number-append_one (10 * acc + (d - b'0')) cs c

decimal_from-small : (fuel n : ℕ) → n < 10 → decimal_from (suc fuel) n ≡ (b'0' + n) ∷ []
unfolding decimal_from
decimal_from-small fuel n h = ground arith

decimal_from-large :
    (fuel n : ℕ)
    → 10 ≤ n
    → decimal_from (suc fuel) n ≡ decimal_from fuel (n / 10) ++ (b'0' + n % 10) ∷ []
unfolding decimal_from
decimal_from-large fuel n h = ground arith

small_or_large : (n : ℕ) → (n < 10) ⊎ (10 ≤ n)
small_or_large n = ground arith

is_digit-code : (d : ℕ) → d < 10 → is_digit (b'0' + d) ≡ true
is_digit-code d h = ground arith

decimal_from-AllDigits : (fuel n : ℕ) → AllDigits (decimal_from fuel n)
unfolding decimal_from
decimal_from-AllDigits zero n = tt
decimal_from-AllDigits (suc fuel) n = elim (small_or_large n) [
  | inl h ↦ subst AllDigits (sym (decimal_from-small fuel n h)) (is_digit-code n h, tt)
  | inr h ↦ subst AllDigits (sym (decimal_from-large fuel n h)) (
      AllDigits-append_one (decimal_from fuel (n / 10)) (b'0' + n % 10)
        (decimal_from-AllDigits fuel (n / 10)) (is_digit-code (n % 10) (omega arith)))
]

number-decimal_from : (fuel n : ℕ) → n < fuel → number 0 (decimal_from fuel n) ≡ n
unfolding decimal_from number
number-decimal_from zero n h = absurd (omega arith)
number-decimal_from (suc fuel) n h = elim (small_or_large n) [
  | inl k ↦ ap (number 0) (decimal_from-small fuel n k) ∙ omega arith
  | inr k ↦
      ap (number 0) (decimal_from-large fuel n k)
      ∙ (number-append_one 0 (decimal_from fuel (n / 10)) (b'0' + n % 10)
          ∙ omega (arith, number-decimal_from fuel (n / 10) (omega arith)))
]

pub number-decimal : (n : ℕ) → number 0 (decimal n) ≡ n
unfolding decimal
number-decimal n = number-decimal_from (n + 1) n (omega arith)

pub decimal-AllDigits : (n : ℕ) → AllDigits (decimal n)
unfolding decimal
decimal-AllDigits n = decimal_from-AllDigits (n + 1) n

pub digit_run-decimal : (n : ℕ) → digit_run (decimal n) ≡ decimal n
unfolding decimal
digit_run-decimal n = digit_run-AllDigits _ (decimal_from-AllDigits (n + 1) n)

positive_value-number :
    (w n : ℕ) (cs : List ℕ) (old : ℕ)
    → number 0 cs ≡ n
    → is_empty cs ≡ false
    → n < 2 ^ (w - 1)
    → positive_value w cs old ≡ n
unfolding positive_value
positive_value-number w n [] old e h k = cc
positive_value-number w n (c ∷ cs) old e h k = ground arith

from_chars-digits :
    (w n : ℕ) (cs : List ℕ) (old : ℕ)
    → AllDigits cs
    → is_empty cs ≡ false
    → number 0 cs ≡ n
    → n < 2 ^ (w - 1)
    → from_chars w cs old ≡ n
unfolding from_chars
from_chars-digits w n [] old d h e k = cc
from_chars-digits w n (c ∷ cs) old (d, ds) h e k =
    let value = positive_value-number w n (c ∷ cs) old e refl k in
    let all = digit_run-AllDigits (c ∷ cs) (d, ds) in
    let plain : (c == b'-') ≡ false = ground arith in rw (plain, all) value

append_one-is_empty : (cs : List ℕ) (c : ℕ) → is_empty (cs ++ c ∷ []) ≡ false
append_one-is_empty [] c = refl
append_one-is_empty (d ∷ cs) c = refl

-- No numeral is empty.
decimal_from-is_empty : (fuel n : ℕ) → is_empty (decimal_from (suc fuel) n) ≡ false
decimal_from-is_empty fuel n = elim (small_or_large n) [
  | inl h ↦ rw (decimal_from-small fuel n h) refl
  | inr h ↦ rw (decimal_from-large fuel n h) (append_one-is_empty (decimal_from fuel (n / 10)) _)
]

pub decimal-is_empty : (n : ℕ) → is_empty (decimal n) ≡ false
unfolding decimal
decimal-is_empty n =
    let one_more : n + 1 ≡ suc n = omega arith in rw (one_more, decimal_from-is_empty n n) refl

-- `std::from_chars` reads a numeral back, whatever was there before, if it fits.
pub from_chars-decimal : (w n old : ℕ) → n < 2 ^ (w - 1) → from_chars w (decimal n) old ≡ n
from_chars-decimal w n old h =
    from_chars-digits w n (decimal n) old (decimal-AllDigits n) (decimal-is_empty n)
      (number-decimal n) h

negative_value-number :
    (w n : ℕ) (cs : List ℕ) (old : ℕ)
    → number 0 cs ≡ n
    → is_empty cs ≡ false
    → n ≤ 2 ^ (w - 1)
    → negative_value w cs old ≡ (2 ^ w - n) % 2 ^ w
unfolding negative_value
negative_value-number w n [] old e h k = cc
negative_value-number w n (c ∷ cs) old e h k = rw e (ground arith)

-- It reads a numeral behind a minus sign as the pattern of the negative number, if it fits.
pub from_chars-negative :
    (w n old : ℕ) → n ≤ 2 ^ (w - 1) → from_chars w (b'-' ∷ decimal n) old ≡ (2 ^ w - n) % 2 ^ w
unfolding from_chars
from_chars-negative w n old h =
    rw (digit_run-decimal n)
      (negative_value-number w n (decimal n) old (number-decimal n) (decimal-is_empty n) h)
