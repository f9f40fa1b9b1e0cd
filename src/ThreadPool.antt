-- ===== src/ThreadPool.antt =====
-- src/utils/thread_pool.h and src/utils/thread_pool.cpp: the pool's state and what each method does in
-- its critical section. A task is a value of any type `T`; what it does when it runs is its `Outcome`.
pub mod System
pub mod Queue
pub mod Wake
pub mod Drain
pub mod Exit
pub mod Once
mod Tests
use ml_distributed_fraud_eng.Common.{
  ℕ, ◌+◌, Bool, true, false, ◌&&◌, ◌||◌, not, List, [], ◌∷◌, ◌++◌, Option, none, some, leb, ◌==◌,
  length, replicate, if◌then◌else◌,
}

-- Where a worker stands in `worker_loop`.
pub data Worker (T : Type 0) : Type 0 where
  checking : Worker T  -- before it takes the mutex, at the loop's head or woken from `cv_.wait`
  waiting : Worker T  -- blocked in `cv_.wait`
  running : T → Worker T  -- the mutex is released, and the task runs
  exited : Worker T

pub record ThreadPool (T : Type 0) : Type 0 where
  pub workers : List (Worker T)
  pub task_queue : List T  -- the front first
  pub shutdown : Bool
  pub max_queue_size : ℕ

-- How a task ends: it returns, throws a `std::exception`, or throws something else.
pub data Outcome : Type 0 where
  returns throws_exception throws_unknown : Outcome

module _ {T : Type 0} where
  abbrev pub is_empty : List T → Bool
  is_empty [] = true
  is_empty (x ∷ xs) = false

  -- The constructor: at least one worker, and an empty queue.
  unfoldable pub construct : ℕ → ℕ → ThreadPool T
  construct n_threads max_queue_size =
      let n = if n_threads == 0 then 1 else n_threads in
      record {
        workers = replicate n Worker.checking;
        task_queue = [];
        shutdown = false;
        max_queue_size = max_queue_size;
      }

  -- The critical section of `enqueue`, with the result of the call. The task goes to the back.
  unfoldable pub enqueue : T → ThreadPool T → ThreadPool T × Bool
  enqueue task p =
      if p.shutdown
      then (p, false)
      else if leb p.max_queue_size (length p.task_queue)
      then (p, false)
      else (record p { task_queue = p.task_queue ++ task ∷ [] }, true)

  unfoldable pub queue_size : ThreadPool T → ℕ
  queue_size p = length p.task_queue

  unfoldable pub size : ThreadPool T → ℕ
  size p = length p.workers

  -- `front()` and `pop()`. On an empty queue they are undefined behaviour, here `none`.
  take_front : List T → Option (List T × Worker T)
  take_front [] = none
  take_front (task ∷ rest) = some (rest, Worker.running task)

  -- The critical section of `worker_loop`: the queue that it leaves, and where the worker then stands.
  unfoldable pub worker_turn : Bool → List T → Option (List T × Worker T)
  unfolding take_front
  worker_turn shutdown queue =
      if not (shutdown || not (is_empty queue))
      then some (queue, Worker.waiting)
      else if shutdown && is_empty queue
      then some (queue, Worker.exited)
      else take_front queue

  -- After the task: both `catch` clauses log, and the loop goes on.
  unfoldable pub after_task : Outcome → Worker T
  after_task Outcome.returns = Worker.checking
  after_task Outcome.throws_exception = Worker.checking
  after_task Outcome.throws_unknown = Worker.checking

  -- The locked block of the destructor.
  unfoldable pub begin_shutdown : ThreadPool T → ThreadPool T
  begin_shutdown p = record p { shutdown = true }

  -- `cv_.notify_all()`
  abbrev pub wake : Worker T → Worker T
  wake Worker.waiting = Worker.checking
  wake w = w
