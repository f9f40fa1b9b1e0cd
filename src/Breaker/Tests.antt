-- ===== src/Breaker/Tests.antt =====
-- src/utils/circuit_breaker.h: runs of the breaker on the settings of tests/test_circuit_breaker.cpp,
-- and the theorems at concrete states.
use ml_distributed_fraud_eng.Common.{ℕ, ◌≡◌, refl, arith, List, [], ◌∷◌, pos, true}
use ml_distributed_fraud_eng.Breaker.{
  CircuitBreaker, closed, opened, half_open, init, allow_request, record_success, record_failure,
}
use ml_distributed_fraud_eng.Breaker.Run.{Call, allow, success, failure, step, run, count-run}
use ml_distributed_fraud_eng.Breaker.Trip.{trips_early}
use ml_distributed_fraud_eng.Breaker.Recovery.{ask, one_trial, failed_trial_keeps_window}
use ml_distributed_fraud_eng.Breaker.Race.{Pc, System, Step, Reach, call, Method, at_idle}
use ml_distributed_fraud_eng.Breaker.Race.Trials.{Edge, Step-Edge}
use ml_distributed_fraud_eng.Breaker.Race.Window.{trip_window_skipped}

-- Three failures and no more are wanted to open this one; 30 s of recovery.
abbrev three : CircuitBreaker
three = init 3 (pos 30_000)

-- OpensAfterThresholdFailures expects CLOSED here.
second_failure_opens : (run (failure 1 ∷ failure 2 ∷ []) three).state ≡ opened
unfolding run step init record_failure
second_failure_opens = refl

-- SuccessResetsFailureCount expects CLOSED here.
success_resets_nothing : (run (failure 1 ∷ success ∷ failure 3 ∷ []) three).state ≡ opened
unfolding run step init record_failure record_success
success_resets_nothing = refl

-- TransitionsToHalfOpenAfterTimeout, HalfOpenSuccessClosesCircuit: threshold 2, 100 ms and 150 ms.
trial_and_success :
    run (failure 1 ∷ failure 2 ∷ allow 150_000_002 ∷ success ∷ []) (init 2 (pos 100)) ≡ record {
      failure_count = 4;
      state = closed;
      open_time = 2;
      failure_threshold = 2;
      recovery_timeout = pos 100;
    }
unfolding run step init record_failure record_success allow_request
trial_and_success = refl

abbrev mixed : List Call
mixed = failure 1 ∷ success ∷ allow 2 ∷ []

count-run_example : (run mixed three).failure_count ≡ 2
count-run_example = (count-run 3 (pos 30_000) mixed).0

-- A breaker that tripped, recovered, and is closed again.
abbrev recovered : List Call
recovered = failure 1 ∷ failure 2 ∷ allow 40_000_000_000 ∷ success ∷ []

recovered_closed : (run recovered three).state ≡ closed
unfolding run step init record_failure record_success allow_request
recovered_closed = refl

trips_early_example : (record_failure 7 (run mixed three)).state ≡ opened
trips_early_example = (trips_early 3 (pos 30_000) mixed 7 (omega arith) (omega arith) refl).1

-- Open since 5 ms, with 100 ms of recovery.
abbrev tripped : CircuitBreaker
tripped = record {
  failure_count = 4;
  state = opened;
  open_time = 5_000_000;
  failure_threshold = 3;
  recovery_timeout = pos 100;
}

abbrev requests : List ℕ
requests = 6_000_000 ∷ 105_000_000 ∷ 106_000_000 ∷ []

one_trial_example : ask requests tripped ≡ (record tripped { state = half_open }, 105_000_000 ∷ [])
one_trial_example = one_trial requests tripped 100 refl refl

failed_trial_keeps_window_example :
    (allow_request 105_000_002 (record_failure 105_000_001 (allow_request 105_000_000 tripped).0)).1
    ≡ true
failed_trial_keeps_window_example =
    (failed_trial_keeps_window 105_000_000 105_000_001 105_000_002 tripped 100 refl refl
      (omega arith) (omega arith)).2

-- One idle thread, and one about to open the breaker that has never been open.
abbrev about_to_trip : System
about_to_trip = record {
  mem = record {
    breaker = record tripped { state = closed; open_time = 0 };
    clock = 200_000_000;
    trials = 0;
    exits = 0;
  };
  threads = Pc.idle ∷ Pc.trip ∷ [];
}

Step-Edge_example : Edge closed closed
Step-Edge_example =
    Step-Edge {s = about_to_trip}
      (call [] Pc.idle (Pc.trip ∷ []) Method.record_success at_idle refl)

trip_window_skipped_example :
    (t u : System) × Step about_to_trip t
    × (t.mem.breaker.state ≡ opened)
    × Reach t u
    × (u.mem.breaker.state ≡ half_open)
    × (u.mem.trials ≡ 1)
    × (u.mem.clock ≡ 200_000_000)
    × (u.threads ≡ Pc.returned true ∷ Pc.stamp_clock ∷ [])
trip_window_skipped_example =
    trip_window_skipped about_to_trip [] Pc.idle [] [] 100 refl at_idle refl refl (omega arith)

abbrev fresh : System
fresh = record {
  mem = record { breaker = three; clock = 9; trials = 0; exits = 0 };
  threads = Pc.idle ∷ Pc.idle ∷ [];
}

abbrev one_called : System
one_called = record fresh { threads = Pc.idle ∷ Pc.load_state ∷ [] }
