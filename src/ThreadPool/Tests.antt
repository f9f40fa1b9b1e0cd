-- ===== src/ThreadPool/Tests.antt =====
-- src/utils/thread_pool.cpp: runs of the pool, as in tests/test_thread_pool.cpp, and the theorems at
-- concrete states. A task is a number.
use mathlib.Core.List.{Perm}
use ml_distributed_fraud_eng.Common.{
  ℕ, ◌+◌, ◌≤◌, ◌<◌, ◌≡◌, refl, Bool, true, false, List, [], ◌∷◌, arith, ◌⊎◌, total,
}
use ml_distributed_fraud_eng.ThreadPool.{
  ThreadPool, Worker, checking, running, exited, Outcome, construct, enqueue, size, worker_turn,
  after_task, begin_shutdown,
}
use ml_distributed_fraud_eng.ThreadPool.System.{
  System, launch, Internal, Reach, turn, finish, notify_all, join, inside, accept, destroy, here,
  next, Phase,
}
use ml_distributed_fraud_eng.ThreadPool.Queue.{QueueInv, Reach-QueueInv}
use ml_distributed_fraud_eng.ThreadPool.Wake.{awake, no_lost_wakeup}
use ml_distributed_fraud_eng.ThreadPool.Drain.{more, stop, work_left, Run-work_left}
use ml_distributed_fraud_eng.ThreadPool.Once.{joined_ran_all}

-- A zero-thread pool has one worker.
one_worker : size (construct {T = ℕ} 0 2) ≡ 1
unfolding size construct
one_worker = refl

abbrev full : ThreadPool ℕ
full = record {
  workers = running 9 ∷ [];
  task_queue = 7 ∷ 8 ∷ [];
  shutdown = false;
  max_queue_size = 2;
}

-- BoundedQueueRejectsWhenFull
rejects_when_full : enqueue 5 full ≡ (full, false)
unfolding enqueue
rejects_when_full = refl

-- A pool of one worker, which is given task 4, runs it, and is destroyed.
abbrev idle_pool : List (Worker ℕ) → List ℕ → Bool → ThreadPool ℕ
idle_pool ws q down = record { workers = ws; task_queue = q; shutdown = down; max_queue_size = 2 }

abbrev after_accept : System ℕ
after_accept = record {
  pool = idle_pool (checking ∷ []) (4 ∷ []) false;
  notifies = 1;
  phase = Phase.serving;
  accepted = 4 ∷ [];
  started = [];
  finished = [];
}

accepted-Reach : Reach (launch 1 2) after_accept
unfolding construct enqueue
accepted-Reach = next here (accept 4 (idle_pool (checking ∷ []) (4 ∷ []) false) refl)

abbrev after_destroy : System ℕ
after_destroy = record after_accept {
  pool = idle_pool (checking ∷ []) (4 ∷ []) true;
  phase = Phase.flagged;
}

destroyed-Reach : Reach (launch 1 2) after_destroy
unfolding begin_shutdown
destroyed-Reach = next accepted-Reach (destroy refl)

abbrev after_run : System ℕ
after_run = record after_destroy { pool = idle_pool (running 4 ∷ []) [] true; started = 4 ∷ [] }

run_step : Internal after_destroy after_run
unfolding worker_turn
run_step = turn [] [] [] (running 4) refl refl

abbrev after_throw : System ℕ
after_throw = record after_run { pool = idle_pool (checking ∷ []) [] true; finished = 4 ∷ [] }

throw_step : Internal after_run after_throw
unfolding after_task
throw_step = finish [] 4 [] Outcome.throws_exception refl

abbrev after_exit : System ℕ
after_exit = record after_throw { pool = idle_pool (exited ∷ []) [] true }

exit_step : Internal after_throw after_exit
unfolding worker_turn
exit_step = turn [] [] [] exited refl refl

abbrev after_notify : System ℕ
after_notify = record after_exit { phase = Phase.joining }

notify_step : Internal after_exit after_notify
notify_step = notify_all refl

abbrev after_join : System ℕ
after_join = record after_exit { phase = Phase.joined }

join_step : Internal after_notify after_join
join_step = join refl (refl, tt)

joined-Reach : Reach (launch 1 2) after_join
joined-Reach =
    next
      (next
        (next (next (next destroyed-Reach (inside run_step)) (inside throw_step))
          (inside exit_step))
        (inside notify_step))
      (inside join_step)

Reach-QueueInv_example : QueueInv 2 after_accept
Reach-QueueInv_example = Reach-QueueInv 1 2 accepted-Reach

no_lost_wakeup_example : (0 < 1) ⊎ (0 < total (awake {T = ℕ}) (checking ∷ []))
no_lost_wakeup_example = no_lost_wakeup 1 2 accepted-Reach (omega arith)

Run-work_left_example : 2 + work_left after_throw ≤ work_left after_destroy
Run-work_left_example = Run-work_left (more run_step (more throw_step stop)) refl

joined_ran_all_example :
    (after_join.pool.task_queue ≡ []) × Perm after_join.accepted after_join.finished
joined_ran_all_example = joined_ran_all 1 2 joined-Reach refl
