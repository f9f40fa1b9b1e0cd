-- ===== src/Config/Number.antt =====
-- `std::stoi` as the C++ and C standards describe it: `strtol` in base 10, which skips white space, takes
-- an optional sign and the longest run of digits and ignores what follows. It throws where there are no
-- digits or the number is no `int`. The result is the bit pattern of the `int`, or `none` for a throw.
use ml_distributed_fraud_eng.Common.{
  ℕ, ◌-◌, ◌^◌, ◌%◌, Bool, ◌||◌, List, [], ◌∷◌, Option, none, some, ltb, leb, ◌==◌, if◌then◌else◌,
  ◌&&◌,
}
use ml_distributed_fraud_eng.Chars.{digit_run, number}

-- `isspace`: a blank, or one of the codes from tab to carriage return.
abbrev pub is_space : ℕ → Bool
is_space c = (c == b' ') || leb 9 c && leb c 13

unfoldable pub skip_space : List ℕ → List ℕ
skip_space [] = []
skip_space (c ∷ cs) = if is_space c then skip_space cs else c ∷ cs

unfoldable pub plus_int : List ℕ → Option ℕ
plus_int [] = none
plus_int (c ∷ cs) = let n = number 0 (c ∷ cs) in if ltb n (2 ^ 31) then some n else none

unfoldable pub minus_int : List ℕ → Option ℕ
minus_int [] = none
minus_int (c ∷ cs) =
    let n = number 0 (c ∷ cs) in if leb n (2 ^ 31) then some ((2 ^ 32 - n) % 2 ^ 32) else none

unfoldable pub signed_int : List ℕ → Option ℕ
unfolding plus_int minus_int
signed_int [] = none
signed_int (c ∷ cs) =
    if c == b'-'
    then minus_int (digit_run cs)
    else if c == b'+'
    then plus_int (digit_run cs)
    else plus_int (digit_run (c ∷ cs))

unfoldable pub stoi : List ℕ → Option ℕ
unfolding signed_int skip_space
stoi text = signed_int (skip_space text)
