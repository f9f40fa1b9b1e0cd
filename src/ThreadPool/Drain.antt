-- ===== src/ThreadPool/Drain.antt =====
-- src/utils/thread_pool.cpp: the destructor. Workers drain the queue and exit, and the joins return.
use ml_distributed_fraud_eng.Common.{
  ℕ, suc, ◌+◌, ◌*◌, ◌≤◌, ◌<◌, ◌≡◌, true, List, [], ◌∷◌, some, arith, length, total, map,
}
use ml_distributed_fraud_eng.ThreadPool.{
  Worker, waiting, checking, running, exited, worker_turn, wake, after_task,
}
use ml_distributed_fraud_eng.ThreadPool.System.{
  System, Internal, turn, finish, spurious, notify_one, notify_none, notify_all, join, Phase,
}
use ml_distributed_fraud_eng.ThreadPool.Wake.{replaced, after_task_lem}

abbrev pub phases_left : Phase → ℕ
phases_left Phase.serving = 0
phases_left Phase.flagged = 2
phases_left Phase.joining = 1
phases_left Phase.joined = 0

module _ {T : Type 0} where
  abbrev pub effort : Worker T → ℕ
  effort checking = 1
  effort waiting = 2
  effort (running t) = 2
  effort exited = 0

  -- Bounds the steps that the pool can still make by itself once it is shutting down.
  abbrev pub work_left : System T → ℕ
  work_left s =
      3 * length s.pool.task_queue + total effort s.pool.workers + s.notifies + phases_left s.phase

  effort-wake : (ws : List (Worker T)) → total effort (map wake ws) ≤ total effort ws
  effort-wake [] = omega arith
  effort-wake (checking ∷ ws) = omega (arith, effort-wake ws)
  effort-wake (waiting ∷ ws) = omega (arith, effort-wake ws)
  effort-wake (running t ∷ ws) = omega (arith, effort-wake ws)
  effort-wake (exited ∷ ws) = omega (arith, effort-wake ws)

  turn-effort :
      (queue rest : List T) (w : Worker T)
      → worker_turn true queue ≡ some (rest, w)
      → 3 * length rest + effort w < 3 * length queue + 1
  unfolding worker_turn
  turn-effort [] rest w e = ground arith
  turn-effort (t ∷ q) rest w e = ground arith

  -- Each step of a pool that is shutting down leaves less work, and the pool goes on shutting down.
  pub Internal-work_left :
      {s t : System T}
      → Internal s t
      → s.pool.shutdown ≡ true
      → (work_left t < work_left s) × (t.pool.shutdown ≡ true)
  Internal-work_left {s} (turn b a q w e h) d =
      ground
        (arith, replaced effort s.pool.workers b checking w a e, turn-effort s.pool.task_queue q w)
  Internal-work_left {s} (finish b task a o e) d = ground (
    arith,
    after_task_lem {T = T} o,
    replaced effort s.pool.workers b (running task) (after_task o) a e,
  )
  Internal-work_left {s} (spurious b a e) d =
      ground (arith, replaced effort s.pool.workers b waiting checking a e)
  Internal-work_left {s} (notify_one n b a e h) d =
      ground (arith, replaced effort s.pool.workers b waiting checking a h)
  Internal-work_left (notify_none n e h) d = ground arith
  Internal-work_left {s} (notify_all e) d = ground (arith, effort-wake s.pool.workers)
  Internal-work_left (join e h) d = ground arith

  -- A number of steps that the pool makes by itself.
  pub data Run : ℕ → System T → System T → Type 0 where
    stop : {s : System T} → Run 0 s s
    more : {k : ℕ} {s t u : System T} → Internal s t → Run k t u → Run (suc k) s u

  -- Once `shutdown_` is set the pool comes to rest: in any run of its own steps, the number of steps is
  -- at most what the work left falls by.
  pub Run-work_left :
      {k : ℕ} {s t : System T} → Run k s t → s.pool.shutdown ≡ true → k + work_left t ≤ work_left s
  Run-work_left stop d = omega arith
  Run-work_left (more i r) d =
      let (less, down) = Internal-work_left i d in omega (arith, Run-work_left r down)
