-- ===== src/Breaker/Race/Solo.antt =====
-- src/utils/circuit_breaker.h: a method that no other thread interrupts.
use ml_distributed_fraud_eng.Common.{ℕ, zero, suc, ◌≡◌, arith}
use ml_distributed_fraud_eng.Breaker.{CircuitBreaker, closed, opened, half_open}
use ml_distributed_fraud_eng.Breaker
use ml_distributed_fraud_eng.Breaker.Race.{Pc, Memory, advance, Method, entry}

-- A number of accesses of one thread.
pub alone : ℕ → Pc → Memory → Memory × Pc
alone zero p m = (m, p)
alone (suc n) p m = let (m', p') = advance p m in alone n p' m'

-- What the uninterrupted methods make of the breaker, and where their caller then stands.
abbrev pub outcome : Method → Memory → CircuitBreaker × Pc
outcome Method.allow_request m =
    let (b, admitted) = Breaker.allow_request m.clock m.breaker in (b, Pc.returned admitted)
outcome Method.record_success m = (Breaker.record_success m.breaker, Pc.idle)
outcome Method.record_failure m = (Breaker.record_failure m.clock m.breaker, Pc.idle)

-- Each method, run access by access with no other thread in between, ends after at most six accesses,
-- with the breaker and the result of the uninterrupted method at the time of the clock.
pub alone-outcome :
    (f : Method) (m : Memory)
    → ((alone 6 (entry f) m).0.breaker ≡ (outcome f m).0)
      × ((alone 6 (entry f) m).1 ≡ (outcome f m).1)
unfolding alone advance Breaker.allow_request Breaker.record_success Breaker.record_failure
alone-outcome Method.allow_request m = ground arith
alone-outcome Method.record_success m = ground arith
alone-outcome Method.record_failure m = ground arith
