-- ===== src/ThreadPool/Once.antt =====
-- src/utils/thread_pool.cpp: each accepted task runs once.
use mathlib.Core.List.{append-nil, append_assoc, Perm, perm_middle, perm_append_comm}
use mathlib.Core.List.Perm
use ml_distributed_fraud_eng.Common.{
  ℕ, zero, suc, ◌≡◌, refl, ap, ◌∙◌, subst, true, false, List, [], ◌∷◌, ◌++◌, arith, length, total,
  map, Bool, replicate,
}
use ml_distributed_fraud_eng.ThreadPool.{
  ThreadPool, Worker, waiting, checking, running, exited, wake, after_task, construct,
  begin_shutdown, enqueue,
}
use ml_distributed_fraud_eng.ThreadPool.System.{
  System, launch, task_of, Internal, Step, Reach, turn, finish, spurious, notify_one, notify_none,
  notify_all, join, inside, accept, reject, destroy, here, next, Phase,
}
use ml_distributed_fraud_eng.ThreadPool.Queue.{Reach-QueueInv}
use ml_distributed_fraud_eng.ThreadPool.Wake.{awake, after_task_lem, Reach-WakeInv}

module _ {T : Type 0} where
  -- The tasks that run now.
  in_flight : List (Worker T) → List T
  in_flight [] = []
  in_flight (w ∷ ws) = task_of w ++ in_flight ws

  append-left_comm : (xs ys zs : List T) → Perm (xs ++ (ys ++ zs)) (ys ++ (xs ++ zs))
  append-left_comm xs ys zs =
      rw (← append_assoc xs ys zs, ← append_assoc ys xs zs)
        (Perm.append_right zs (perm_append_comm xs ys))

  in_flight-middle :
      (before : List (Worker T)) (p : Worker T) (after : List (Worker T))
      → Perm (in_flight (before ++ p ∷ after)) (task_of p ++ in_flight (before ++ after))
  unfolding in_flight
  in_flight-middle [] p after = Perm.refl _
  in_flight-middle (x ∷ xs) p after =
      Perm.trans (Perm.append_left (task_of x) (in_flight-middle xs p after))
        (append-left_comm (task_of x) (task_of p) _)

  in_flight-wake : (ws : List (Worker T)) → in_flight (map wake ws) ≡ in_flight ws
  unfolding in_flight
  in_flight-wake [] = refl
  in_flight-wake (checking ∷ ws) = in_flight-wake ws
  in_flight-wake (waiting ∷ ws) = in_flight-wake ws
  in_flight-wake (running t ∷ ws) = ap (◌∷◌ t) (in_flight-wake ws)
  in_flight-wake (exited ∷ ws) = in_flight-wake ws

  -- The started tasks are the finished ones and those in flight.
  abbrev FlightInv : System T → Type 0
  FlightInv s = Perm s.started (s.finished ++ in_flight s.pool.workers)

  -- One worker goes from a place with no task to another one.
  idle-FlightInv :
      (s : System T) (before : List (Worker T)) (p q : Worker T) (after : List (Worker T))
      → s.pool.workers ≡ before ++ p ∷ after
      → task_of p ≡ []
      → task_of q ≡ []
      → FlightInv s
      → Perm s.started (s.finished ++ in_flight (before ++ q ∷ after))
  idle-FlightInv s b p q a e hp hq v = Perm.trans v (
      Perm.append_left s.finished (
        rw e (
          Perm.trans (rw hp at (in_flight-middle b p a))
            (Perm.symm (rw hq at (in_flight-middle b q a))))))

  turn-FlightInv :
      (s : System T) (before : List (Worker T)) (w : Worker T) (after : List (Worker T))
      → s.pool.workers ≡ before ++ checking ∷ after
      → FlightInv s
      → Perm (s.started ++ task_of w) (s.finished ++ in_flight (before ++ w ∷ after))
  turn-FlightInv s b w a e v = Perm.trans (Perm.append_right (task_of w) v) (
      Perm.trans (perm_append_comm (s.finished ++ in_flight s.pool.workers) (task_of w)) (
        Perm.trans (append-left_comm (task_of w) s.finished (in_flight s.pool.workers)) (
          Perm.append_left s.finished (
            rw e (
              Perm.trans (Perm.append_left (task_of w) (in_flight-middle b checking a))
                (Perm.symm (in_flight-middle b w a)))))))

  finish-FlightInv :
      (s : System T) (before : List (Worker T)) (task : T) (w : Worker T) (after : List (Worker T))
      → s.pool.workers ≡ before ++ running task ∷ after
      → task_of w ≡ []
      → FlightInv s
      → Perm s.started (task ∷ s.finished ++ in_flight (before ++ w ∷ after))
  finish-FlightInv s b t w a e none_left v = Perm.trans v (
      Perm.trans (Perm.append_left s.finished (rw e (in_flight-middle b (running t) a))) (
        Perm.trans (perm_middle s.finished (in_flight (b ++ a))) (
          Perm.cons t
            (Perm.append_left s.finished (Perm.symm (rw none_left at (in_flight-middle b w a)))))))

  Internal-FlightInv : {s t : System T} → Internal s t → FlightInv s → FlightInv t
  Internal-FlightInv {s} (turn b a q w e h) v = turn-FlightInv s b w a e v
  Internal-FlightInv {s} (finish b task a o e) v =
      finish-FlightInv s b task (after_task o) a e (rw (after_task_lem o)) v
  Internal-FlightInv {s} (spurious b a e) v = idle-FlightInv s b waiting checking a e refl refl v
  Internal-FlightInv {s} (notify_one n b a e h) v =
      idle-FlightInv s b waiting checking a h refl refl v
  Internal-FlightInv (notify_none n e h) v = v
  Internal-FlightInv {s} (notify_all e) v = rw (in_flight-wake s.pool.workers) v
  Internal-FlightInv (join e h) v = v

  enqueue-workers :
      (task : T) (p q : ThreadPool T) (r : Bool) → enqueue task p ≡ (q, r) → q.workers ≡ p.workers
  unfolding enqueue
  enqueue-workers task p q r e = ground arith

  Step-FlightInv : {s t : System T} → Step s t → FlightInv s → FlightInv t
  unfolding begin_shutdown
  Step-FlightInv (inside i) v = Internal-FlightInv i v
  Step-FlightInv {s} (accept task p e) v = rw (enqueue-workers task s.pool p true e) v
  Step-FlightInv {s} (reject task p e) v = rw (enqueue-workers task s.pool p false e) v
  Step-FlightInv (destroy e) v = v

  in_flight-start : (n : ℕ) → in_flight (replicate n checking) ≡ []
  unfolding in_flight
  in_flight-start zero = refl
  in_flight-start (suc n) = in_flight-start n

  Reach-FlightInv :
      (n_threads max : ℕ) {s : System T} → Reach (launch n_threads max) s → FlightInv s
  unfolding construct
  Reach-FlightInv n max here = rw in_flight-start Perm.nil
  Reach-FlightInv n max (next r st) = Step-FlightInv st (Reach-FlightInv n max r)

  in_flight-eq-nil : (ws : List (Worker T)) → total awake ws ≡ 0 → in_flight ws ≡ []
  unfolding in_flight
  in_flight-eq-nil [] h = refl
  in_flight-eq-nil (checking ∷ ws) h = absurd (omega arith)
  in_flight-eq-nil (running t ∷ ws) h = absurd (omega arith)
  in_flight-eq-nil (waiting ∷ ws) h = in_flight-eq-nil ws (omega arith)
  in_flight-eq-nil (exited ∷ ws) h = in_flight-eq-nil ws (omega arith)

  nil_of_length : (xs : List T) → length xs ≡ 0 → xs ≡ []
  nil_of_length [] h = refl
  nil_of_length (x ∷ xs) h = absurd (omega arith)

  -- When the destructor has joined the workers, the queue is empty and the tasks that have run to their
  -- end, by return or by exception, are exactly the accepted ones, each as often as it was accepted.
  pub joined_ran_all :
      (n_threads max : ℕ) {s : System T}
      → Reach (launch n_threads max) s
      → s.phase ≡ Phase.joined
      → (s.pool.task_queue ≡ []) × Perm s.accepted s.finished
  joined_ran_all n max {s} r j =
      let v = Reach-WakeInv n max r in
      let (l, b, fifo) = Reach-QueueInv n max r in
      let empty = nil_of_length s.pool.task_queue (ground (arith, v.over j, v.gone_last)) in
      let idle = in_flight-eq-nil s.pool.workers (omega (arith, v.over j)) in
      let ran =
        subst (Perm s.started) (ap (◌++◌ s.finished) idle ∙ append-nil s.finished)
          (Reach-FlightInv n max r) in
      (empty, rw (fifo, empty, append-nil) ran)
