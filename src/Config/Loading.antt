-- ===== src/Config/Loading.antt =====
-- include/config.h: when the configuration loads.
use ml_distributed_fraud_eng.Common.{
  ℕ, ◌≡◌, refl, ap, ◌∙◌, Bool, true, false, List, [], ◌∷◌, ◌++◌, Option, none, some, arith,
  if◌then◌else◌,
}
use ml_distributed_fraud_eng.Text.{codes}
use ml_distributed_fraud_eng.Float.{f0_85}
use ml_distributed_fraud_eng.Config.{
  Loaded, loaded, fails, ◌>>=◌, Environment, Config, env_int, env_float, from_env, int_of, float_of,
  stoi, int_error, float_error,
}

-- The text of the exception, if there is one.
abbrev pub error_of {ℓ} : {A : Type ℓ} → Loaded A → Option (List ℕ)
error_of (loaded a) = none
error_of (fails text) = some text

abbrev pub first_of {ℓ} : {A : Type ℓ} → Option A → Option A → Option A
first_of (some a) o = some a
first_of none o = o

pub data Kind : Type 0 where
  int float : Kind

-- The variables that hold numbers, in the order of their fields.
abbrev pub numbers : List (List ℕ × Kind)
numbers =
    (codes "REDIS_PORT", Kind.int)
    ∷ (codes "REDIS_POOL_SIZE", Kind.int)
    ∷ (codes "ML_TIMEOUT_MS", Kind.int)
    ∷ (codes "THREAD_POOL_SIZE", Kind.int)
    ∷ (codes "MAX_QUEUE_SIZE", Kind.int)
    ∷ (codes "FRAUD_THRESHOLD", Kind.float)
    ∷ (codes "CIRCUIT_FAILURE_THRESHOLD", Kind.int)
    ∷ (codes "CIRCUIT_RECOVERY_SEC", Kind.int)
    ∷ (codes "PROMETHEUS_PORT", Kind.int)
    ∷ []

abbrev is_none : Option ℕ → Bool
is_none none = true
is_none (some n) = false

module _ (env : Environment) where
  -- What is wrong with a variable: it is set, not empty, and std::stoi or std::stof throws on it.
  abbrev wrong : List ℕ → Kind → Option (List ℕ) → Option (List ℕ)
  wrong key k none = none
  wrong key k (some []) = none
  wrong key Kind.int (some (c ∷ cs)) =
      if is_none (stoi (c ∷ cs))
      then some (codes "Env var " ++ (key ++ (codes " is not a valid int: " ++ c ∷ cs)))
      else none
  wrong key Kind.float (some (c ∷ cs)) =
      if is_none (env.stof (c ∷ cs))
      then some (codes "Env var " ++ (key ++ (codes " is not a valid float: " ++ c ∷ cs)))
      else none

  abbrev pub first_wrong : List (List ℕ × Kind) → Option (List ℕ)
  first_wrong [] = none
  first_wrong ((key, k) ∷ rest) = first_of (wrong key k (env.getenv key)) (first_wrong rest)

  int_of-error :
      (key : List ℕ) (d : ℕ) (v : Option (List ℕ))
      → error_of (int_of env key d v) ≡ wrong key Kind.int v
  unfolding int_of int_error
  int_of-error key d none = refl
  int_of-error key d (some []) = refl
  int_of-error key d (some (c ∷ cs)) = ground arith

  float_of-error :
      (key : List ℕ) (d : ℕ) (v : Option (List ℕ))
      → error_of (float_of env key d v) ≡ wrong key Kind.float v
  unfolding float_of float_error
  float_of-error key d none = refl
  float_of-error key d (some []) = refl
  float_of-error key d (some (c ∷ cs)) = ground arith

  bind-error :
      (m : Loaded ℕ) (f : ℕ → Loaded Config) (e rest : Option (List ℕ))
      → error_of m ≡ e
      → ((n : ℕ) → error_of (f n) ≡ rest)
      → error_of (m >>= f) ≡ first_of e rest
  bind-error (loaded n) f e rest h k = k n ∙ ap (λ o. first_of o rest) h
  bind-error (fails text) f e rest h k = ap (λ o. first_of o rest) h

  env_int-bind :
      (key : List ℕ) (d : ℕ) (f : ℕ → Loaded Config) (rest : Option (List ℕ))
      → ((n : ℕ) → error_of (f n) ≡ rest)
      → error_of (env_int env key d >>= f) ≡ first_of (wrong key Kind.int (env.getenv key)) rest
  unfolding env_int
  env_int-bind key d f rest h =
      bind-error (int_of env key d (env.getenv key)) f _ rest (int_of-error key d (env.getenv key))
        h

  env_float-bind :
      (key : List ℕ) (d : ℕ) (f : ℕ → Loaded Config) (rest : Option (List ℕ))
      → ((n : ℕ) → error_of (f n) ≡ rest)
      → error_of (env_float env key d >>= f) ≡ first_of (wrong key Kind.float (env.getenv key)) rest
  unfolding env_float
  env_float-bind key d f rest h =
      bind-error (float_of env key d (env.getenv key)) f _ rest
        (float_of-error key d (env.getenv key)) h

  -- The configuration loads exactly if every variable that is meant to hold a number is unset, empty, or
  -- a text from which std::stoi, or std::stof for the threshold, reads a number without throwing, whatever
  -- follows it in the text; if not, the text of the exception is that for the first variable, in the order
  -- of the fields, where it throws, with its name, its kind and its value.
  pub from_env-first_wrong : error_of (from_env env) ≡ first_wrong numbers
  unfolding from_env
  from_env-first_wrong = env_int-bind _ 6379 _ _ λ a. env_int-bind _ 8 _ _ λ b.
      env_int-bind _ 10 _ _ λ c. env_int-bind _ 8 _ _ λ d. env_int-bind _ 10000 _ _ λ e.
        env_float-bind _ f0_85 _ _ λ f.
          env_int-bind _ 5 _ _ λ g. env_int-bind _ 30 _ _ λ h. env_int-bind _ 9090 _ _ λ i. refl
