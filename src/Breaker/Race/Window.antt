-- ===== src/Breaker/Race/Window.antt =====
-- src/utils/circuit_breaker.h: the gap between the compare-exchange that opens the breaker and the
-- write of `open_time_`.
use mathlib.Core.List.{append_assoc}
use ml_distributed_fraud_eng.Common.{
  ℕ, ◌+◌, ◌*◌, ◌≡◌, refl, arith, ◌≤◌, true, List, ◌∷◌, ◌++◌, pos, subst,
}
use ml_distributed_fraud_eng.Breaker.{closed, opened, half_open}
use ml_distributed_fraud_eng.Breaker.Race.{
  Pc, Memory, advance, System, Step, move, call, Reach, here, next, Resting, Method,
}

-- A move whose outcome is known.
move_to :
    (s : System) (before : List Pc) (p : Pc) (after : List Pc) {m : Memory} {q : Pc}
    → s.threads ≡ before ++ p ∷ after
    → advance p s.mem ≡ (m, q)
    → Step s (record { mem = m; threads = before ++ q ∷ after })
move_to s before p after e h =
    subst (λ r. Step s (record { mem = r.0; threads = before ++ r.1 ∷ after })) h
      (move before p after e)

-- A thread that runs alone through a request to an open breaker that is due is admitted.
slips_in :
    (s : System) (before : List Pc) (p : Pc) (after : List Pc) (timeout : ℕ)
    → s.threads ≡ before ++ p ∷ after
    → Resting p
    → s.mem.breaker.state ≡ opened
    → s.mem.breaker.recovery_timeout ≡ pos timeout
    → s.mem.breaker.open_time + timeout * 1_000_000 ≤ s.mem.clock
    → Reach s (record {
      mem = record s.mem {
        breaker = record s.mem.breaker { state = half_open };
        trials = s.mem.trials + 1;
      };
      threads = before ++ Pc.returned true ∷ after;
    })
unfolding advance
slips_in s before p after timeout e rest o r due =
    next asked (move_to _ before Pc.try_trial after refl (ground arith))
  where
    at : Pc → System
    at q = record { mem = s.mem; threads = before ++ q ∷ after }

    called : Reach s (at Pc.load_state)
    called = next here (call before p after Method.allow_request rest e)

    loaded : Reach s (at Pc.read_clock)
    loaded = next called (move_to _ before Pc.load_state after refl (ground arith))

    timed : Reach s (at (Pc.compare_time s.mem.clock))
    timed = next loaded (move_to _ before Pc.read_clock after refl refl)

    asked : Reach s (at Pc.try_trial)
    asked = next timed (move_to _ before (Pc.compare_time s.mem.clock) after refl (ground arith))

-- A thread is about to open a closed breaker, whose open time is that of an earlier failure, at least
-- the recovery timeout ago (or the initial 0), and another thread is free to make a request. Then there
-- is an execution in which the first thread opens the breaker and the request of the other one is
-- admitted, and makes it half open, at that same instant of the clock.
pub trip_window_skipped :
    (s : System) (before : List Pc) (p : Pc) (between after : List Pc) (timeout : ℕ)
    → s.threads ≡ before ++ p ∷ between ++ Pc.trip ∷ after
    → Resting p
    → s.mem.breaker.state ≡ closed
    → s.mem.breaker.recovery_timeout ≡ pos timeout
    → s.mem.breaker.open_time + timeout * 1_000_000 ≤ s.mem.clock
    → (t u : System) × Step s t
      × (t.mem.breaker.state ≡ opened)
      × Reach t u
      × (u.mem.breaker.state ≡ half_open)
      × (u.mem.trials ≡ s.mem.trials + 1)
      × (u.mem.clock ≡ s.mem.clock)
      × (u.threads ≡ before ++ Pc.returned true ∷ (between ++ Pc.stamp_clock ∷ after))
unfolding advance
trip_window_skipped s before p between after timeout e rest c r due = (
  tripped,
  _,
  move_to s (before ++ p ∷ between) Pc.trip after e (ground arith),
  refl,
  slips_in tripped before p (between ++ Pc.stamp_clock ∷ after) timeout
      (append_assoc before (p ∷ between) (Pc.stamp_clock ∷ after)) rest refl r due,
  refl,
  refl,
  refl,
  refl,
)
  where
    tripped : System
    tripped = record {
      mem = record s.mem { breaker = record s.mem.breaker { state = opened } };
      threads = before ++ p ∷ between ++ Pc.stamp_clock ∷ after;
    }
