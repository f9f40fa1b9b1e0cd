-- ===== src/Config/Prefix.antt =====
-- include/config.h, env_int: the variables that begin with a numeral.
use ml_distributed_fraud_eng.Common.{
  ℕ, ◌^◌, ◌<◌, ◌≡◌, refl, true, false, List, [], ◌∷◌, ◌++◌, some, arith,
}
use ml_distributed_fraud_eng.Text.{is_empty}
use ml_distributed_fraud_eng.Chars.{number, digit_run, is_digit}
use ml_distributed_fraud_eng.Chars.Decimal.{
  decimal, decimal-AllDigits, decimal-is_empty, number-decimal, AllDigits,
}
use ml_distributed_fraud_eng.Config.{
  loaded, Environment, env_int, int_of, stoi, skip_space, signed_int, plus_int,
}

module _ (env : Environment) where
  skip_space-digit : (c : ℕ) (cs : List ℕ) → is_digit c ≡ true → skip_space (c ∷ cs) ≡ c ∷ cs
  unfolding skip_space
  skip_space-digit c cs d = ground arith

  signed_int-digit :
      (c : ℕ) (cs : List ℕ)
      → is_digit c ≡ true
      → signed_int (c ∷ cs) ≡ plus_int (digit_run (c ∷ cs))
  unfolding signed_int
  signed_int-digit c cs d = ground arith

  plus_int-number :
      (n : ℕ) (c : ℕ) (cs : List ℕ)
      → number 0 (c ∷ cs) ≡ n
      → n < 2 ^ 31
      → plus_int (c ∷ cs) ≡ some n
  unfolding plus_int
  plus_int-number n c cs e h = ground arith

  digit_run-append :
      (cs rest : List ℕ) → AllDigits cs → digit_run rest ≡ [] → digit_run (cs ++ rest) ≡ cs
  unfolding digit_run
  digit_run-append [] rest d h = h
  digit_run-append (c ∷ cs) rest (d, ds) h = rw (d, digit_run-append cs rest ds h) refl

  append-is_empty : (cs rest : List ℕ) → is_empty cs ≡ false → is_empty (cs ++ rest) ≡ false
  append-is_empty [] rest h = cc
  append-is_empty (c ∷ cs) rest h = refl

  stoi-digits :
      (n : ℕ) (cs rest : List ℕ)
      → AllDigits cs
      → is_empty cs ≡ false
      → digit_run rest ≡ []
      → number 0 cs ≡ n
      → n < 2 ^ 31
      → stoi (cs ++ rest) ≡ some n
  unfolding stoi
  stoi-digits n [] rest d h r e k = cc
  stoi-digits n (c ∷ cs) rest (d, ds) h r e k =
      rw
        (
          skip_space-digit c (cs ++ rest) d,
          signed_int-digit c (cs ++ rest) d,
          digit_run-append (c ∷ cs) rest (d, ds) r,
        )
        (plus_int-number n c cs e k)

  int_of-stoi :
      (key : List ℕ) (n d : ℕ) (v : List ℕ)
      → is_empty v ≡ false
      → stoi v ≡ some n
      → int_of env key d (some v) ≡ loaded n
  unfolding int_of
  int_of-stoi key n d [] h e = cc
  int_of-stoi key n d (c ∷ cs) h e = rw e refl

  -- A variable that begins with the decimal numeral of an int from 0 on is read as that int, without an
  -- exception and whatever the default is, if no digit follows at once: 6379abc is taken for 6379.
  pub env_int-prefix :
      (key : List ℕ) (n default_val : ℕ) (rest : List ℕ)
      → env.getenv key ≡ some (decimal n ++ rest)
      → digit_run rest ≡ []
      → n < 2 ^ 31
      → env_int env key default_val ≡ loaded n
  unfolding env_int
  env_int-prefix key n d rest e r h = rw e (
      int_of-stoi key n d (decimal n ++ rest)
        (append-is_empty (decimal n) rest (decimal-is_empty n))
        (stoi-digits n (decimal n) rest (decimal-AllDigits n) (decimal-is_empty n) r
          (number-decimal n) h))
