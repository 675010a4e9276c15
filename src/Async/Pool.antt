-- ===== src/Async/Pool.antt =====
-- src/kclpp/async/tpool/ThreadPool.cpp: the pool of worker threads over one queue of tasks. The pool is
-- started, stopped and joined by one thread.
pub mod Lifecycle
use kclpp.Prelude.{
  ℕ, zero, suc, String, Bool, true, false, Option, none, some, List, [], ◌∷◌, ◌++◌, ltb, not,
  if◌then◌else◌,
}
use kclpp.Outcome.{Outcome, success, failure}
use kclpp.Async.Queue.{Queue}
use kclpp.Async.Task.{
  Task, ThreadPoolError, thread_pool_error, not_running, already_running, invalid_settings,
}
use kclpp.Async.Worker
use kclpp.Async.Worker.{
  Ends, returns, aborts, blocks, joinable, hanging, joined, Worker, new_worker,
}

pub record ThreadPool (K Q B : Type 0) : Type 0 where
  pub num_threads : ℕ
  pub work_queue : B
  pub workers : List (Worker K Q)
  pub running : Bool

abbrev pub ThreadPoolOutcome : Type 0
ThreadPoolOutcome = Outcome (Unit {0}) ThreadPoolError

module _ {K Q : Type 0} where
  -- `worker->start()` and the DCHECK on its outcome
  started : Ends (ThreadPoolOutcome × Worker K Q) → Ends (Worker K Q)
  started (returns (success u, w)) = returns w
  started (returns (failure e, w)) = aborts
  started aborts = aborts
  started blocks = blocks

  -- the loop of `startWorkers`, with `n` rounds to go
  start_new : ℕ → List (Worker K Q) → Ends (List (Worker K Q))
  unfolding Worker.start started
  start_new zero workers = returns workers
  start_new (suc n) workers = elim (started (Worker.start new_worker)) [
    | returns w ↦ start_new n (workers ++ (w ∷ []))
    | aborts ↦ aborts
    | blocks ↦ blocks
  ]

  -- the outcomes of the workers are dropped
  unfoldable pub stop_workers : List (Worker K Q) → List (Worker K Q)
  unfolding Worker.trigger_stop
  stop_workers [] = []
  stop_workers (w ∷ ws) = (Worker.trigger_stop w).1 ∷ stop_workers ws

  join_workers : List (Worker K Q) → Ends (List (Worker K Q))
  unfolding Worker.join
  join_workers [] = returns []
  join_workers (w ∷ ws) =
      let rest = join_workers ws in
      elim (Worker.join w) [
        | returns w' ↦ elim rest [
          | returns ws' ↦ returns (w' ∷ ws')
          | aborts ↦ aborts
          | blocks ↦ blocks
        ]
        | aborts ↦ aborts
        | blocks ↦ blocks
      ]

  -- the destructor of `std::thread` ends the process where the thread was not joined
  abbrev is_destructible : Worker K Q → Bool
  is_destructible w = elim w.thread [
    | none ↦ true
    | some t ↦ elim t [ joinable ↦ false | hanging ↦ false | joined ↦ true ]
  ]

  destroy_workers : List (Worker K Q) → Ends (Unit {0})
  destroy_workers [] = returns tt
  destroy_workers (w ∷ ws) =
      let rest = destroy_workers ws in if is_destructible w then rest else aborts

module _ {K Q B : Type 0} where
  -- `ThreadPool::createNew`, with an empty queue
  abbrev pub create_new : ℕ → B → ThreadPool K Q B
  create_new n b = record { num_threads = n; work_queue = b; workers = []; running = false }

  -- the DCHECK wants a thread
  unfoldable pub start_workers : ThreadPool K Q B → Ends (ThreadPool K Q B)
  unfolding start_new
  start_workers p = elim (start_new p.num_threads p.workers) [
    | returns ws ↦ if ltb 0 p.num_threads then returns (record p { workers = ws }) else aborts
    | aborts ↦ aborts
    | blocks ↦ blocks
  ]

  unfoldable pub start : ThreadPool K Q B → Ends (ThreadPoolOutcome × ThreadPool K Q B)
  unfolding start_workers
  start p =
      if ltb p.num_threads 1
      then returns (failure (invalid_settings "ThreadPool needs at least 1 thread."), p)
      else if p.running
      then returns (failure (already_running "Already running."), p)
      else elim (start_workers (record p { running = true })) [
        | returns p' ↦ returns (success tt, p')
        | aborts ↦ aborts
        | blocks ↦ blocks
      ]

  unfoldable pub trigger_stop : ThreadPool K Q B → ThreadPoolOutcome × ThreadPool K Q B
  unfolding stop_workers
  trigger_stop p =
      if p.running
      then (success tt, record p { running = false; workers = stop_workers p.workers })
      else (failure (not_running "NotRunning"), p)

  unfoldable pub join : ThreadPool K Q B → Ends (ThreadPool K Q B)
  unfolding join_workers
  join p = elim (join_workers p.workers) [
    | returns ws ↦ returns (record p { workers = ws })
    | aborts ↦ aborts
    | blocks ↦ blocks
  ]

  join_stopped : ThreadPoolOutcome → ThreadPool K Q B → Ends (ThreadPoolOutcome × ThreadPool K Q B)
  unfolding join
  join_stopped (failure e) p = returns (failure e, p)
  join_stopped (success u) p = elim (join p) [
    | returns p' ↦ returns (success u, p')
    | aborts ↦ aborts
    | blocks ↦ blocks
  ]

  unfoldable pub stop_join : ThreadPool K Q B → Ends (ThreadPoolOutcome × ThreadPool K Q B)
  unfolding trigger_stop join_stopped
  stop_join p = let (stopped, p') = trigger_stop p in join_stopped stopped p'

  -- `~ThreadPool`, with the members after it
  unfoldable pub destroy : ThreadPool K Q B → Ends (Unit {0})
  unfolding stop_join destroy_workers
  destroy p = elim (stop_join p) [
    | returns q ↦ destroy_workers q.1.workers
    | aborts ↦ aborts
    | blocks ↦ blocks
  ]

  module _ {C W : Type 0} (tasks : Queue (Task C W) B) where
    unfoldable pub submitted : Bool × B → ThreadPool K Q B → ThreadPoolOutcome × ThreadPool K Q B
    submitted (true, b) p = (success tt, record p { work_queue = b })
    submitted (false, b) p =
        (failure (thread_pool_error "Queue is full."), record p { work_queue = b })

    unfoldable pub try_submit : Task C W → ThreadPool K Q B → ThreadPoolOutcome × ThreadPool K Q B
    unfolding submitted
    try_submit task p =
        if not p.running
        then (failure (not_running "Not running."), p)
        else submitted (tasks.try_enqueue task p.work_queue) p
