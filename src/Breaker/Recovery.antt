-- ===== src/Breaker/Recovery.antt =====
-- src/utils/circuit_breaker.h: the open breaker, its recovery window and its trial request.
use ml_distributed_fraud_eng.Common.{
  ℕ, ◌+◌, ◌*◌, ◌≤◌, ◌≡◌, refl, List, [], ◌∷◌, arith, pos, Option, none, some, leb, if◌then◌else◌,
  true,
}
use ml_distributed_fraud_eng.Breaker.{
  closed, opened, half_open, CircuitBreaker, allow_request, record_success, record_failure,
}

-- A series of requests at the given times, with no outcome recorded in between: the breaker after
-- them, and the times of the requests that it admitted.
pub ask : List ℕ → CircuitBreaker → CircuitBreaker × List ℕ
ask [] b = (b, [])
ask (t ∷ ts) b =
    let (b1, admitted) = allow_request t b in
    let (b2, rest) = ask ts b1 in (b2, if admitted then t ∷ rest else rest)

-- The first of the times that is not before the deadline.
abbrev pub first_from : ℕ → List ℕ → Option ℕ
first_from deadline [] = none
first_from deadline (t ∷ ts) = if leb deadline t then some t else first_from deadline ts

-- What the breaker does with a series of requests when the first one that is due is `due`.
abbrev pub trial_at : CircuitBreaker → Option ℕ → CircuitBreaker × List ℕ
trial_at b none = (b, [])
trial_at b (some t) = (record b { state = half_open }, t ∷ [])

-- A half open breaker admits nothing, and stays so.
ask_half_open : (ts : List ℕ) (b : CircuitBreaker) → b.state ≡ half_open → ask ts b ≡ (b, [])
unfolding ask allow_request
ask_half_open [] b o = refl
ask_half_open (t ∷ ts) b o = ground (arith, ask_half_open ts b o)

-- Of any series of requests to an open breaker, exactly the first one made at or after the open time
-- plus the recovery timeout is admitted, and makes the breaker half open; all others are refused.
pub one_trial :
    (ts : List ℕ) (b : CircuitBreaker) (timeout : ℕ)
    → b.state ≡ opened
    → b.recovery_timeout ≡ pos timeout
    → ask ts b ≡ trial_at b (first_from (b.open_time + timeout * 1_000_000) ts)
unfolding ask allow_request
one_trial [] b r o e = refl
one_trial (t ∷ ts) b r o e =
    ground (arith, one_trial ts b r o e, ask_half_open ts (record b { state = half_open }) refl)

-- A closed breaker admits everything, and stays so.
ask_closed : (ts : List ℕ) (b : CircuitBreaker) → b.state ≡ closed → ask ts b ≡ (b, ts)
unfolding ask allow_request
ask_closed [] b o = refl
ask_closed (t ∷ ts) b o = ground (arith, ask_closed ts b o)

-- A trial made when it is due is admitted, and if its success is recorded the breaker is closed, admits
-- every request of any series that follows, and differs from the one that tripped in its state alone.
pub recovers :
    (due : ℕ) (ts : List ℕ) (b : CircuitBreaker) (timeout : ℕ)
    → b.state ≡ opened
    → b.recovery_timeout ≡ pos timeout
    → b.open_time + timeout * 1_000_000 ≤ due
    → let (tried, admitted) = allow_request due b in
      (admitted ≡ true) × (ask ts (record_success tried) ≡ (record b { state = closed }, ts))
unfolding allow_request record_success
recovers due ts b r o e h = ground (arith, ask_closed ts (record b { state = closed }) refl)

-- If the trial fails, the breaker is open again but keeps its old open time: any request made at or
-- after the time of the trial is admitted at once, with no further recovery window.
pub failed_trial_keeps_window :
    (due failed later : ℕ) (b : CircuitBreaker) (timeout : ℕ)
    → b.state ≡ opened
    → b.recovery_timeout ≡ pos timeout
    → b.open_time + timeout * 1_000_000 ≤ due
    → due ≤ later
    → let reopened = record_failure failed (allow_request due b).0 in
      (reopened.state ≡ opened)
      × (reopened.open_time ≡ b.open_time)
      × ((allow_request later reopened).1 ≡ true)
unfolding allow_request record_failure
failed_trial_keeps_window due failed later b r o e h k = ground arith
