-- ===== src/Breaker/Trip.antt =====
-- src/utils/circuit_breaker.h: when failures trip the breaker, and what is left of them afterwards.
use ml_distributed_fraud_eng.Common.{ℕ, ◌+◌, ◌*◌, ◌^◌, ◌≤◌, ◌<◌, ◌≡◌, ◌/◌, List, [], ◌∷◌, arith, ℤ}
use ml_distributed_fraud_eng.Breaker.{
  closed, opened, CircuitBreaker, init, allow_request, record_success, record_failure,
}
use ml_distributed_fraud_eng.Breaker.Run.{
  Call, allow, success, failure, step, run, failures, count-run,
}

closed_from :
    (cs : List Call) (b : CircuitBreaker) (n : ℕ)
    → b.failure_threshold < 2 ^ 31
    → b.failure_count ≡ 2 * n
    → b.state ≡ closed
    → 2 * (n + failures cs) ≤ b.failure_threshold
    → (run cs b).state ≡ closed
unfolding run step allow_request record_success record_failure
closed_from [] b n q c s h = s
closed_from (allow now ∷ cs) b n q c s h =
    closed_from cs (step (allow now) b) n (ground arith) (ground arith) (ground arith)
      (ground arith)
closed_from (success ∷ cs) b n q c s h =
    closed_from cs (step success b) n (ground arith) (ground arith) (ground arith) (ground arith)
closed_from (failure now ∷ cs) b n q c s h =
    closed_from cs (step (failure now) b) (n + 1) (ground arith) (ground arith) (ground arith)
      (ground arith)

-- As long as at most half the threshold's failures were recorded, in any history of calls, the breaker
-- is closed.
pub stays_closed :
    (threshold : ℕ) (timeout : ℤ) (cs : List Call)
    → threshold < 2 ^ 31
    → 2 * failures cs ≤ threshold
    → (run cs (init threshold timeout)).state ≡ closed
unfolding init
stays_closed threshold timeout cs q h =
    closed_from cs (init threshold timeout) 0 q (omega arith) (ground arith) (omega arith)

-- If any history leaves the breaker closed with at least half the threshold's failures recorded since
-- construction, successes in between or not, the next failure opens it and sets the open time.
pub trips :
    (threshold : ℕ) (timeout : ℤ) (cs : List Call) (now : ℕ)
    → threshold < 2 ^ 31
    → 2 * failures cs + 1 < 2 ^ 31
    → threshold ≤ 2 * failures cs + 1
    → (run cs (init threshold timeout)).state ≡ closed
    → ((record_failure now (run cs (init threshold timeout))).state ≡ opened)
      × ((record_failure now (run cs (init threshold timeout))).open_time ≡ now)
unfolding record_failure
trips threshold timeout cs now p q h s = ground (arith, count-run threshold timeout cs)

-- With a threshold of at least 3 the breaker is closed after half the threshold's failures, whatever
-- else was called, and the next failure opens it: fewer failures than the threshold.
pub trips_early :
    (threshold : ℕ) (timeout : ℤ) (cs : List Call) (now : ℕ)
    → 3 ≤ threshold
    → threshold < 2 ^ 31
    → failures cs ≡ threshold / 2
    → ((run cs (init threshold timeout)).state ≡ closed)
      × ((record_failure now (run cs (init threshold timeout))).state ≡ opened)
      × (failures cs + 1 < threshold)
trips_early threshold timeout cs now p q h =
    let before = stays_closed threshold timeout cs q (omega arith) in
    (before, (trips threshold timeout cs now q (omega arith) (omega arith) before).0, omega arith)
