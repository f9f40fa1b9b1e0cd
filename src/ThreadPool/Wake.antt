-- ===== src/ThreadPool/Wake.antt =====
-- src/utils/thread_pool.cpp: blocked workers and their notifications.
use ml_distributed_fraud_eng.Common.{
  ℕ, zero, suc, ◌+◌, ◌<◌, ◌≡◌, refl, Bool, true, false, List, [], ◌∷◌, ◌++◌, some, arith, length,
  length-append, ◌⊎◌, total, total-replace, total-replicate, map, All,
}
use ml_distributed_fraud_eng.ThreadPool.{
  Worker, waiting, checking, running, exited, Outcome, construct, enqueue, worker_turn,
  begin_shutdown, wake, after_task,
}
use ml_distributed_fraud_eng.ThreadPool.System.{
  System, launch, Internal, Step, Reach, turn, finish, spurious, notify_one, notify_none,
  notify_all, join, inside, accept, reject, destroy, here, next, waits, Phase,
}

-- The number of workers of a pool that is asked for `n`.
abbrev pub max_one : ℕ → ℕ
max_one zero = 1
max_one (suc n) = suc n

module _ {T : Type 0} where
  -- At the mutex, or in a task.
  abbrev pub awake : Worker T → ℕ
  awake checking = 1
  awake (running t) = 1
  awake _ = 0

  abbrev pub gone : Worker T → ℕ
  gone exited = 1
  gone _ = 0

  pub replaced :
      (w : Worker T → ℕ) (ws before : List (Worker T)) (p q : Worker T) (after : List (Worker T))
      → ws ≡ before ++ p ∷ after
      → total w (before ++ q ∷ after) + w p ≡ total w ws + w q
  replaced w ws b p q a e = rw e (total-replace w b p q a)

  total-wake :
      (ws : List (Worker T))
      → (total waits (map wake ws) ≡ 0)
        × (total gone (map wake ws) ≡ total gone ws)
        × (total awake (map wake ws) ≡ total awake ws + total waits ws)
  total-wake [] = omega arith
  total-wake (checking ∷ ws) = omega (arith, total-wake ws)
  total-wake (waiting ∷ ws) = omega (arith, total-wake ws)
  total-wake (running t ∷ ws) = omega (arith, total-wake ws)
  total-wake (exited ∷ ws) = omega (arith, total-wake ws)

  pub record WakeInv (n : ℕ) (s : System T) : Type 0 where
    pub whole :
        total awake s.pool.workers + total waits s.pool.workers + total gone s.pool.workers ≡ n
    pub some_worker : 0 < n
    pub gone_last :
        0 < total gone s.pool.workers → (s.pool.shutdown ≡ true) × (length s.pool.task_queue ≡ 0)
    pub woken : 0 < length s.pool.task_queue → 0 < s.notifies + total awake s.pool.workers
    pub told : s.pool.shutdown ≡ true → (s.phase ≡ Phase.flagged) ⊎ (total waits s.pool.workers ≡ 0)
    pub serves : (s.phase ≡ Phase.serving) → s.pool.shutdown ≡ false
    pub over : s.phase ≡ Phase.joined → total awake s.pool.workers + total waits s.pool.workers ≡ 0
    pub called : (s.pool.shutdown ≡ false) → s.phase ≡ Phase.serving

  exited-total :
      (ws : List (Worker T))
      → All (λ w. w ≡ exited) ws
      → (total awake ws ≡ 0) × (total waits ws ≡ 0)
  exited-total [] h = omega arith
  exited-total (w ∷ ws) (h, hs) = rw h (omega (arith, exited-total ws hs))

  turn-effects :
      (down : Bool) (queue rest : List T) (w : Worker T)
      → worker_turn down queue ≡ some (rest, w)
      → ((w ≡ waiting) × (down ≡ false) × (length queue ≡ 0) × (length rest ≡ 0))
        ⊎ ((w ≡ exited) × (down ≡ true) × (length queue ≡ 0) × (length rest ≡ 0))
        ⊎ ((awake w ≡ 1) × (waits w ≡ 0) × (gone w ≡ 0) × (length queue ≡ length rest + 1))
  unfolding worker_turn
  turn-effects true [] rest w e = ground arith
  turn-effects false [] rest w e = ground arith
  turn-effects true (t ∷ q) rest w e = ground arith
  turn-effects false (t ∷ q) rest w e = ground arith

  -- A task that throws ends like one that returns: its worker goes back to the mutex.
  pub after_task_lem : (o : Outcome) → after_task {T = T} o ≡ checking
  unfolding after_task
  after_task_lem Outcome.returns = refl
  after_task_lem Outcome.throws_exception = refl
  after_task_lem Outcome.throws_unknown = refl

  pub Internal-WakeInv : {n : ℕ} {s t : System T} → Internal s t → WakeInv n s → WakeInv n t
  Internal-WakeInv {s} (turn b a q w e h) v = ground (
    arith,
    turn-effects _ _ q w h,
    replaced awake s.pool.workers b checking w a e,
    replaced waits s.pool.workers b checking w a e,
    replaced gone s.pool.workers b checking w a e,
  )
  Internal-WakeInv {s} (finish b task a o e) v = ground (
    arith,
    after_task_lem o,
    replaced awake s.pool.workers b (running task) (after_task o) a e,
    replaced waits s.pool.workers b (running task) (after_task o) a e,
    replaced gone s.pool.workers b (running task) (after_task o) a e,
  )
  Internal-WakeInv {s} (spurious b a e) v = ground (
    arith,
    replaced awake s.pool.workers b waiting checking a e,
    replaced waits s.pool.workers b waiting checking a e,
    replaced gone s.pool.workers b waiting checking a e,
  )
  Internal-WakeInv {s} (notify_one n b a e h) v = ground (
    arith,
    replaced awake s.pool.workers b waiting checking a h,
    replaced waits s.pool.workers b waiting checking a h,
    replaced gone s.pool.workers b waiting checking a h,
  )
  Internal-WakeInv (notify_none n e h) v = ground arith
  Internal-WakeInv {s} (notify_all e) v = ground (arith, total-wake s.pool.workers)
  Internal-WakeInv {s} (join e h) v = ground (arith, exited-total s.pool.workers h)

  Step-WakeInv : {n : ℕ} {s t : System T} → Step s t → WakeInv n s → WakeInv n t
  unfolding enqueue begin_shutdown
  Step-WakeInv (inside i) v = Internal-WakeInv i v
  Step-WakeInv {s} (accept task p e) v = ground (arith, length-append s.pool.task_queue (task ∷ []))
  Step-WakeInv (reject task p e) v = ground arith
  Step-WakeInv (destroy e) v = ground arith

  launch-WakeInv : (n_threads max : ℕ) → WakeInv (max_one n_threads) (launch n_threads max)
  unfolding construct
  launch-WakeInv zero max = ground arith
  launch-WakeInv (suc n) max = ground (
    arith,
    total-replicate awake (suc n) checking,
    total-replicate (waits {T = T}) (suc n) checking,
    total-replicate gone (suc n) checking,
  )

  pub Reach-WakeInv :
      (n_threads max : ℕ) {s : System T}
      → Reach (launch n_threads max) s
      → WakeInv (max_one n_threads) s
  Reach-WakeInv n max here = launch-WakeInv n max
  Reach-WakeInv n max (next r st) = Step-WakeInv st (Reach-WakeInv n max r)

  -- No wake-up is lost: in every state that the pool reaches with a task in the queue, a notification is
  -- still to come or some worker is awake, also if the pool was asked for no workers at all.
  pub no_lost_wakeup :
      (n_threads max : ℕ) {s : System T}
      → Reach (launch n_threads max) s
      → 0 < length s.pool.task_queue
      → (0 < s.notifies) ⊎ (0 < total awake s.pool.workers)
  no_lost_wakeup n max r h = let v = Reach-WakeInv n max r in ground (arith, v.woken h)
