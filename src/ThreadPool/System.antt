-- ===== src/ThreadPool/System.antt =====
-- src/utils/thread_pool.cpp: the workers, the callers of `enqueue` and the destructor, interleaved.
-- A critical section is one step, since the mutex keeps the others out; `notify_one`, `notify_all` and
-- the run of a task stand outside it and are steps of their own. A blocked worker may wake by itself.
use ml_distributed_fraud_eng.Common.{
  ℕ, suc, ◌≡◌, true, false, List, [], ◌∷◌, ◌++◌, map, some, All, total,
}
use ml_distributed_fraud_eng.ThreadPool.{
  ThreadPool, Worker, waiting, checking, running, exited, Outcome, construct, enqueue, worker_turn,
  after_task, begin_shutdown, wake,
}

-- How far the destructor is.
pub data Phase : Type 0 where
  serving : Phase  -- not called
  flagged : Phase  -- `shutdown_` is set, `notify_all` is still to come
  joining : Phase  -- before or at the joins
  joined : Phase

-- The last three fields are a history: the tasks accepted and started, in order, and those that ended.
pub record System (T : Type 0) : Type 0 where
  pub pool : ThreadPool T
  pub notifies : ℕ  -- callers of `enqueue` that have pushed and not yet notified
  pub phase : Phase
  pub accepted : List T
  pub started : List T
  pub finished : List T

module _ {T : Type 0} where
  abbrev pub launch : ℕ → ℕ → System T
  launch n_threads max_queue_size = record {
    pool = construct n_threads max_queue_size;
    notifies = 0;
    phase = Phase.serving;
    accepted = [];
    started = [];
    finished = [];
  }

  abbrev pub waits : Worker T → ℕ
  waits waiting = 1
  waits _ = 0

  -- What a turn adds to the tasks started.
  abbrev pub task_of : Worker T → List T
  task_of (running t) = t ∷ []
  task_of _ = []

  abbrev pub with_workers : System T → List (Worker T) → System T
  with_workers s ws = record s { pool = record s.pool { workers = ws } }

  -- A step of the pool's own threads: the workers, a notification, the destructor.
  pub data Internal (s : System T) : System T → Type 0 where
    turn :
        (before : List (Worker T)) (after : List (Worker T)) (queue : List T) (w : Worker T)
        → s.pool.workers ≡ before ++ checking ∷ after
        → worker_turn s.pool.shutdown s.pool.task_queue ≡ some (queue, w)
        → Internal s (record s {
          pool = record s.pool { workers = before ++ w ∷ after; task_queue = queue };
          started = s.started ++ task_of w;
        })
    finish :
        (before : List (Worker T)) (task : T) (after : List (Worker T)) (outcome : Outcome)
        → s.pool.workers ≡ before ++ running task ∷ after
        → Internal s (record s {
          pool = record s.pool { workers = before ++ after_task outcome ∷ after };
          finished = task ∷ s.finished;
        })
    spurious :
        (before : List (Worker T)) (after : List (Worker T))
        → s.pool.workers ≡ before ++ waiting ∷ after
        → Internal s (with_workers s (before ++ checking ∷ after))
    notify_one :
        (n : ℕ) (before : List (Worker T)) (after : List (Worker T))
        → s.notifies ≡ suc n
        → s.pool.workers ≡ before ++ waiting ∷ after
        → Internal s (record s {
          pool = record s.pool { workers = before ++ checking ∷ after };
          notifies = n;
        })
    notify_none :
        (n : ℕ)
        → s.notifies ≡ suc n
        → total waits s.pool.workers ≡ 0
        → Internal s (record s { notifies = n })
    notify_all :
        s.phase ≡ Phase.flagged
        → Internal s (record s {
          pool = record s.pool { workers = map wake s.pool.workers };
          phase = Phase.joining;
        })
    join :
        s.phase ≡ Phase.joining
        → All (λ w. w ≡ exited) s.pool.workers
        → Internal s (record s { phase = Phase.joined })

  pub data Step (s : System T) : System T → Type 0 where
    inside : {t : System T} → Internal s t → Step s t
    accept :
        (task : T) (p : ThreadPool T)
        → enqueue task s.pool ≡ (p, true)
        → Step s
            (record s { pool = p; notifies = suc s.notifies; accepted = s.accepted ++ task ∷ [] })
    reject :
        (task : T) (p : ThreadPool T)
        → enqueue task s.pool ≡ (p, false)
        → Step s (record s { pool = p })
    destroy :
        s.phase ≡ Phase.serving
        → Step s (record s { pool = begin_shutdown s.pool; phase = Phase.flagged })

  pub data Reach (s : System T) : System T → Type 0 where
    here : Reach s s
    next : {t u : System T} → Reach s t → Step t u → Reach s u
