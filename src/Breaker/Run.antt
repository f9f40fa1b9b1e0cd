-- ===== src/Breaker/Run.antt =====
-- src/utils/circuit_breaker.h: what a sequence of uninterrupted calls does to the breaker.
use ml_distributed_fraud_eng.Common.{
  ℕ, suc, ◌+◌, ◌*◌, ◌%◌, ◌^◌, ◌≡◌, refl, ◌∙◌, List, [], ◌∷◌, arith, ℤ,
}
use ml_distributed_fraud_eng.Breaker.{
  CircuitBreaker, init, allow_request, record_success, record_failure,
}

-- One call by a client, with the reading of the clock that it makes.
pub data Call : Type 0 where
  allow : ℕ → Call
  success : Call
  failure : ℕ → Call

unfoldable pub step : Call → CircuitBreaker → CircuitBreaker
step (allow now) b = (allow_request now b).0
step success b = record_success b
step (failure now) b = record_failure now b

unfoldable pub run : List Call → CircuitBreaker → CircuitBreaker
run [] b = b
run (c ∷ cs) b = run cs (step c b)

abbrev pub failures : List Call → ℕ
failures [] = 0
failures (failure now ∷ cs) = suc (failures cs)
failures (_ ∷ cs) = failures cs

step_fixed :
    (c : Call) (b : CircuitBreaker)
    → ((step c b).failure_threshold ≡ b.failure_threshold)
      × ((step c b).recovery_timeout ≡ b.recovery_timeout)
unfolding step allow_request record_success record_failure
step_fixed (allow now) b = ground arith
step_fixed success b = ground arith
step_fixed (failure now) b = ground arith

step_count :
    (c : Call) (b : CircuitBreaker) (n : ℕ)
    → b.failure_count ≡ n % 2 ^ 32
    → (step c b).failure_count ≡ (n + 2 * failures (c ∷ [])) % 2 ^ 32
unfolding step allow_request record_success record_failure
step_count (allow now) b n h = ground arith
step_count success b n h = ground arith
step_count (failure now) b n h = ground arith

count_from :
    (cs : List Call) (b : CircuitBreaker) (n : ℕ)
    → b.failure_count ≡ n % 2 ^ 32
    → (run cs b).failure_count ≡ (n + 2 * failures cs) % 2 ^ 32
unfolding run
count_from [] b n h = omega arith
count_from (allow now ∷ cs) b n h =
    omega
      (arith, count_from cs (step (allow now) b) n (omega (arith, step_count (allow now) b n h)))
count_from (success ∷ cs) b n h =
    omega (arith, count_from cs (step success b) n (omega (arith, step_count success b n h)))
count_from (failure now ∷ cs) b n h = omega (
  arith,
  count_from cs (step (failure now) b) (n + 2) (omega (arith, step_count (failure now) b n h)),
)

fixed_from :
    (cs : List Call) (b : CircuitBreaker)
    → ((run cs b).failure_threshold ≡ b.failure_threshold)
      × ((run cs b).recovery_timeout ≡ b.recovery_timeout)
unfolding run
fixed_from [] b = (refl, refl)
fixed_from (c ∷ cs) b =
    let (p, q) = fixed_from cs (step c b) in (p ∙ (step_fixed c b).0, q ∙ (step_fixed c b).1)

-- After any history the counter is twice the number of failures recorded since construction, modulo
-- 2 ^ 32, whatever successes were recorded between them; the two settings are those given.
pub count-run :
    (threshold : ℕ) (timeout : ℤ) (cs : List Call)
    → ((run cs (init threshold timeout)).failure_count ≡ 2 * failures cs % 2 ^ 32)
      × ((run cs (init threshold timeout)).failure_threshold ≡ threshold)
      × ((run cs (init threshold timeout)).recovery_timeout ≡ timeout)
unfolding init
count-run threshold timeout cs =
    let b = init threshold timeout in
    let (p, q) = fixed_from cs b in (omega (arith, count_from cs b 0 refl), p, q)
