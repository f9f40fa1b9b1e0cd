-- ===== src/Breaker.antt =====
-- src/utils/circuit_breaker.h: the circuit breaker, each method run without interruption.
-- Times are nanoseconds of the steady clock. An `int` is its 32-bit pattern, a number below 2 ^ 32,
-- and is compared as the signed number that it stands for; `fetch_add` and `++` on the atomic wrap.
pub mod Trip
pub mod Recovery
pub mod Run
pub mod Race
mod Tests
use ml_distributed_fraud_eng.Common.{
  ℕ, ◌+◌, ◌*◌, ◌%◌, ◌^◌, Bool, true, false, ◌&&◌, leb, ℤ, pos_part, neg_part, if◌then◌else◌,
}

pub data CircuitState : Type 0 where
  closed opened half_open : CircuitState

-- Comparison `==` on the states.
abbrev pub same : CircuitState → CircuitState → Bool
same CircuitState.closed CircuitState.closed = true
same CircuitState.opened CircuitState.opened = true
same CircuitState.half_open CircuitState.half_open = true
same _ _ = false

pub record CircuitBreaker : Type 0 where
  pub failure_count : ℕ  -- std::atomic<int>, as its bit pattern
  pub state : CircuitState
  pub open_time : ℕ  -- nanoseconds
  pub failure_threshold : ℕ  -- int, as its bit pattern
  pub recovery_timeout : ℤ  -- milliseconds

-- The member initialisers, with the constructor's two arguments.
unfoldable pub init : ℕ → ℤ → CircuitBreaker
init failure_threshold recovery_timeout = record {
  failure_count = 0;
  state = CircuitState.closed;
  open_time = 0;
  failure_threshold = failure_threshold;
  recovery_timeout = recovery_timeout;
}

-- `a + 1` on an atomic int.
abbrev pub incr32 : ℕ → ℕ
incr32 a = (a + 1) % 2 ^ 32

-- `a >= b` on ints: the bit patterns are compared with the sign bit flipped.
abbrev pub ge32 : ℕ → ℕ → Bool
ge32 a b = leb ((b + 2 ^ 31) % 2 ^ 32) ((a + 2 ^ 31) % 2 ^ 32)

-- `now - open_time_ >= recovery_timeout_`, without the subtraction.
abbrev pub elapsed : ℕ → ℕ → ℤ → Bool
elapsed now since timeout =
    leb (since + pos_part timeout * 1_000_000) (now + neg_part timeout * 1_000_000)

-- `state_.compare_exchange_strong(expected, desired)`
abbrev pub cas : CircuitState → CircuitState → CircuitBreaker → CircuitBreaker × Bool
cas expected desired b =
    if same b.state expected then (record b { state = desired }, true) else (b, false)

-- The cases of the `switch`: nothing stands there for HALF_OPEN.
allow_in : CircuitState → ℕ → CircuitBreaker → CircuitBreaker × Bool
allow_in CircuitState.closed now b = (b, true)
allow_in CircuitState.opened now b =
    if elapsed now b.open_time b.recovery_timeout
    then cas CircuitState.opened CircuitState.half_open b
    else (b, false)
allow_in CircuitState.half_open now b = (b, false)

unfoldable pub allow_request : ℕ → CircuitBreaker → CircuitBreaker × Bool
unfolding allow_in
allow_request now b = allow_in b.state now b

unfoldable pub record_success : CircuitBreaker → CircuitBreaker
record_success b = (cas CircuitState.half_open CircuitState.closed b).0

-- The two branches of `record_failure`, after the first increment, which returned `prev`.
failure_branches : ℕ → ℕ → CircuitBreaker → CircuitBreaker
failure_branches now prev b =
    if ge32 (incr32 prev) b.failure_threshold && same b.state CircuitState.closed
    then record (cas CircuitState.closed CircuitState.opened b).0 { open_time = now }
    else if same b.state CircuitState.half_open
    then (cas CircuitState.half_open CircuitState.opened b).0
    else b

unfoldable pub record_failure : ℕ → CircuitBreaker → CircuitBreaker
unfolding failure_branches
record_failure now b =
    let b' =
      failure_branches now b.failure_count (record b { failure_count = incr32 b.failure_count }) in
    record b' { failure_count = incr32 b'.failure_count }
