-- ===== src/Breaker/Race.antt =====
-- src/utils/circuit_breaker.h: the methods as many threads run them, one access to a shared variable
-- at a time, in any interleaving. Atomics are sequentially consistent. `open_time_` is a plain
-- variable: its accesses are steps too. Of `now() - open_time_` the clock is read first.
pub mod Trials
pub mod Window
pub mod Solo
use ml_distributed_fraud_eng.Common.{
  ℕ, suc, ◌+◌, ◌≡◌, Bool, true, false, List, [], ◌∷◌, ◌++◌, if◌then◌else◌, ℤ,
}
use ml_distributed_fraud_eng.Breaker.{
  CircuitState, closed, opened, half_open, CircuitBreaker, same, cas, incr32, ge32, elapsed, init,
}

-- Where a thread stands in a method, with the local values that are live there.
pub data Pc : Type 0 where
  idle : Pc
  returned : Bool → Pc  -- `allow_request` has returned
  load_state : Pc  -- `allow_request` before `state_.load()`
  read_clock : Pc  -- its OPEN case, before `now()`
  compare_time : (now : ℕ) → Pc  -- before the comparison with `open_time_`
  try_trial : Pc  -- before the compare-exchange to HALF_OPEN
  succeed : Pc  -- `record_success` before its compare-exchange
  count : Pc  -- `record_failure` before `fetch_add`
  test_closed : (prev : ℕ) → Pc  -- before the first condition
  trip : Pc  -- before the compare-exchange to OPEN
  stamp_clock : Pc  -- before `now()` in the first branch
  stamp : (now : ℕ) → Pc  -- before the write of `open_time_`
  test_half_open : Pc  -- before the second condition
  relapse : Pc  -- before the compare-exchange back to OPEN
  count_again : Pc  -- before `failure_count_++`

-- The shared variables and the clock. The last two fields are no variables of the program: they count
-- the trials admitted, and the times that the state left HALF_OPEN.
pub record Memory : Type 0 where
  pub breaker : CircuitBreaker
  pub clock : ℕ
  pub trials : ℕ
  pub exits : ℕ

after_load : CircuitState → Pc
after_load CircuitState.closed = Pc.returned true
after_load CircuitState.opened = Pc.read_clock
after_load CircuitState.half_open = Pc.returned false

-- A compare-exchange out of HALF_OPEN.
leave : CircuitState → Memory → Memory
leave to m =
    let (b, won) = cas CircuitState.half_open to m.breaker in
    record m { breaker = b; exits = if won then m.exits + 1 else m.exits }

-- The next access of a thread.
unfoldable pub advance : Pc → Memory → Memory × Pc
unfolding after_load leave
advance Pc.idle m = (m, Pc.idle)
advance (Pc.returned r) m = (m, Pc.returned r)
advance Pc.load_state m = (m, after_load m.breaker.state)
advance Pc.read_clock m = (m, Pc.compare_time m.clock)
advance (Pc.compare_time now) m = (
  m,
  (if elapsed now m.breaker.open_time m.breaker.recovery_timeout
      then Pc.try_trial
      else Pc.returned false),
)
advance Pc.try_trial m =
    let (b, won) = cas CircuitState.opened CircuitState.half_open m.breaker in
    (record m { breaker = b; trials = if won then m.trials + 1 else m.trials }, Pc.returned won)
advance Pc.succeed m = (leave CircuitState.closed m, Pc.idle)
advance Pc.count m = (
  record m { breaker = record m.breaker { failure_count = incr32 m.breaker.failure_count } },
  Pc.test_closed m.breaker.failure_count,
)
advance (Pc.test_closed prev) m = (
  m,
  (if ge32 (incr32 prev) m.breaker.failure_threshold
      then (if same m.breaker.state CircuitState.closed then Pc.trip else Pc.test_half_open)
      else Pc.test_half_open),
)
advance Pc.trip m = (
  record m { breaker = (cas CircuitState.closed CircuitState.opened m.breaker).0 },
  Pc.stamp_clock,
)
advance Pc.stamp_clock m = (m, Pc.stamp m.clock)
advance (Pc.stamp now) m =
    (record m { breaker = record m.breaker { open_time = now } }, Pc.count_again)
advance Pc.test_half_open m =
    (m, (if same m.breaker.state CircuitState.half_open then Pc.relapse else Pc.count_again))
advance Pc.relapse m = (leave CircuitState.opened m, Pc.count_again)
advance Pc.count_again m = (
  record m { breaker = record m.breaker { failure_count = incr32 m.breaker.failure_count } },
  Pc.idle,
)

pub data Method : Type 0 where
  allow_request record_success record_failure : Method

abbrev pub entry : Method → Pc
entry Method.allow_request = Pc.load_state
entry Method.record_success = Pc.succeed
entry Method.record_failure = Pc.count

-- A thread that may call a method.
pub data Resting : Pc → Type 0 where
  at_idle : Resting Pc.idle
  at_returned : (r : Bool) → Resting (Pc.returned r)

pub record System : Type 0 where
  pub mem : Memory
  pub threads : List Pc

pub data Step (s : System) : System → Type 0 where
  move :
      (before : List Pc) (p : Pc) (after : List Pc)
      → s.threads ≡ before ++ p ∷ after
      → Step s
          (record { mem = (advance p s.mem).0; threads = before ++ (advance p s.mem).1 ∷ after })
  call :
      (before : List Pc) (p : Pc) (after : List Pc) (f : Method)
      → Resting p
      → s.threads ≡ before ++ p ∷ after
      → Step s (record { mem = s.mem; threads = before ++ entry f ∷ after })
  tick : (d : ℕ) → Step s (record s { mem = record s.mem { clock = s.mem.clock + d } })

pub data Reach (s : System) : System → Type 0 where
  here : Reach s s
  next : {t u : System} → Reach s t → Step t u → Reach s u

-- A new breaker, with its threads idle.
pub data Initial : System → Type 0 where
  start :
      (threshold : ℕ) (timeout : ℤ) (clock : ℕ) (threads : List Pc)
      → Initial (record {
        mem = record { breaker = init threshold timeout; clock = clock; trials = 0; exits = 0 };
        threads = threads;
      })
