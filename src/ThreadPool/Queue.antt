-- ===== src/ThreadPool/Queue.antt =====
-- src/utils/thread_pool.cpp: the bounded queue, and the order in which tasks start.
use mathlib.Core.List.{append_assoc}
use ml_distributed_fraud_eng.Common.{
  ℕ, ◌≤◌, ◌<◌, ◌≡◌, refl, sym, ap, ◌∙◌, Bool, true, false, List, [], ◌∷◌, ◌++◌, some, arith, length,
  length-append, ◌↔◌,
}
use ml_distributed_fraud_eng.ThreadPool.{
  ThreadPool, Worker, construct, enqueue, worker_turn, queue_size, begin_shutdown,
}
use ml_distributed_fraud_eng.ThreadPool.System.{
  System, launch, task_of, Internal, Step, Reach, turn, finish, spurious, notify_one, notify_none,
  notify_all, join, inside, accept, reject, destroy, here, next,
}

module _ {T : Type 0} where
  -- A turn takes the task that it starts from the front, or leaves the queue alone.
  pub worker_turn-front :
      (down : Bool) (queue rest : List T) (w : Worker T)
      → worker_turn down queue ≡ some (rest, w)
      → queue ≡ task_of w ++ rest
  unfolding worker_turn
  worker_turn-front true [] rest w e = ground arith
  worker_turn-front false [] rest w e = ground arith
  worker_turn-front true (t ∷ q) rest w e = ground arith
  worker_turn-front false (t ∷ q) rest w e = ground arith

  -- The queue keeps to its limit, which never changes, and what was accepted is what was started and
  -- then what is queued, in order.
  abbrev pub QueueInv : ℕ → System T → Type 0
  QueueInv max s =
      (s.pool.max_queue_size ≡ max)
      × (length s.pool.task_queue ≤ max)
      × (s.accepted ≡ s.started ++ s.pool.task_queue)

  -- A task is accepted exactly if the pool is not shutting down and the queue is below its limit.
  pub enqueue_lem :
      (task : T) (p : ThreadPool T)
      → ((enqueue task p).1 ≡ true) ↔ ((p.shutdown ≡ false) × (queue_size p < p.max_queue_size))
  unfolding enqueue queue_size
  enqueue_lem task p = ground arith

  accept-QueueInv :
      (max : ℕ) (s : System T) (task : T) (p : ThreadPool T)
      → enqueue task s.pool ≡ (p, true)
      → QueueInv max s
      → (p.max_queue_size ≡ max)
        × (length p.task_queue ≤ max)
        × (p.task_queue ≡ s.pool.task_queue ++ task ∷ [])
  unfolding enqueue
  accept-QueueInv max s task p e v = ground (arith, length-append s.pool.task_queue (task ∷ []))

  reject-QueueInv :
      (max : ℕ) (s : System T) (task : T) (p : ThreadPool T)
      → enqueue task s.pool ≡ (p, false)
      → QueueInv max s
      → QueueInv max (record s { pool = p })
  unfolding enqueue
  reject-QueueInv max s task p e v = ground arith

  Internal-QueueInv : {max : ℕ} {s t : System T} → Internal s t → QueueInv max s → QueueInv max t
  Internal-QueueInv {s} (turn b a q w e h) (l, n, f) =
      let front = worker_turn-front _ _ q w h in
      (
        l,
        omega (arith, ap length front, length-append (task_of w) q),
        f ∙ (ap (◌++◌ s.started) front ∙ sym (append_assoc s.started (task_of w) q)),
      )
  Internal-QueueInv (finish b task a o e) v = v
  Internal-QueueInv (spurious b a e) v = v
  Internal-QueueInv (notify_one n b a e h) v = v
  Internal-QueueInv (notify_none n e h) v = v
  Internal-QueueInv (notify_all e) v = v
  Internal-QueueInv (join e h) v = v

  Step-QueueInv : {max : ℕ} {s t : System T} → Step s t → QueueInv max s → QueueInv max t
  unfolding begin_shutdown
  Step-QueueInv (inside i) v = Internal-QueueInv i v
  Step-QueueInv {max} {s} (accept task p e) v =
      let (l, n, q) = accept-QueueInv max s task p e v in
      (
        l,
        n,
        ap (λ xs. xs ++ task ∷ []) v.2
            ∙ (append_assoc s.started s.pool.task_queue (task ∷ []) ∙ ap (◌++◌ s.started) (sym q)),
      )
  Step-QueueInv {max} {s} (reject task p e) v = reject-QueueInv max s task p e v
  Step-QueueInv (destroy e) v = v

  -- In every state that the pool reaches, whatever the interleaving, the queue is at most as long as
  -- configured, and the accepted tasks are the started ones followed by the queued ones, in the order
  -- in which they were accepted: tasks start first in, first out, and none is lost or started twice.
  pub Reach-QueueInv :
      (n_threads max : ℕ) {s : System T} → Reach (launch n_threads max) s → QueueInv max s
  unfolding construct
  Reach-QueueInv n max here = (refl, omega arith, refl)
  Reach-QueueInv n max (next r st) = Step-QueueInv st (Reach-QueueInv n max r)
