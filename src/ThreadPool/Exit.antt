-- ===== src/ThreadPool/Exit.antt =====
-- src/utils/thread_pool.cpp: how the destructor comes to its end.
use ml_distributed_fraud_eng.Common.{
  ℕ, ◌≡◌, refl, Bool, true, false, List, [], ◌∷◌, ◌++◌, some, ◌⊎◌,
}
use ml_distributed_fraud_eng.ThreadPool.{Worker, checking, running, worker_turn}
use ml_distributed_fraud_eng.ThreadPool.System.{System, Phase}
use ml_distributed_fraud_eng.ThreadPool.Drain.{Run}

module _ {T : Type 0} where
  -- A worker at the mutex or in a task, where there is one.
  Busy : List (Worker T) → Type 0
  Busy ws =
      (before after : List (Worker T)) × (p : Worker T) × (ws ≡ before ++ p ∷ after)
      × ((p ≡ checking) ⊎ ((t : T) × (p ≡ running t)))

  -- The front is never taken from an empty queue.
  pub worker_turn-total :
      (down : Bool) (queue : List T) → (r : List T × Worker T) × (worker_turn down queue ≡ some r)
  unfolding worker_turn
  worker_turn-total true [] = (_, refl)
  worker_turn-total false [] = (_, refl)
  worker_turn-total true (t ∷ q) = (_, refl)
  worker_turn-total false (t ∷ q) = (_, refl)

  -- Where a pool that is shutting down comes to.
  abbrev pub Ends : System T → Type 0
  Ends s = (k : ℕ) × (t : System T) × Run k s t × (t.phase ≡ Phase.joined)
