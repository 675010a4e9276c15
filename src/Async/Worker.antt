-- ===== src/Async/Worker.antt =====
-- src/kclpp/async/tpool/ThreadPoolWorker.cpp: a thread that takes tasks from the queue of its pool and
-- sends each result to the event thread that asked for it. `DCHECK` ends the process, as in the build
-- that CMakeLists.txt makes. An atomic compare-and-swap is one step, so its loop ends at once.
pub mod Ending
use kclpp.Prelude.{
  ℕ, zero, suc, ◌+◌, ◌%◌, String, Bool, true, false, ◌&&◌, Option, none, some, List, [], ◌∷◌, ltb,
  ◌==◌, ◌≡◌, ◌⊎◌, inl, inr, refl, if◌then◌else◌,
}
use kclpp.Outcome.{Outcome, success, failure}
use kclpp.Async.EventFd.{Os}
use kclpp.Async.Queue.{Queue}
use kclpp.Async.Channel.{EventChannel, QueueError, partial_write_error, queue_full, try_send}
use kclpp.Async.Task.{
  Task, ThreadPoolError, already_running, not_running, task_threw_exception, couldnt_send_result,
  valid, run, on_success, on_error,
}

-- A call that returns, that ends the process, or that has not returned.
pub data Ends {ℓ} (A : Type ℓ) : Type ℓ where
  returns : A → Ends A
  aborts blocks : Ends A

pub Ends-cases {ℓ} :
    {A : Type ℓ} (e : Ends A) → (e ≡ aborts) ⊎ ((e ≡ blocks) ⊎ ((a : A) × (e ≡ returns a)))
Ends-cases (returns a) = inr (inr (a, refl))
Ends-cases aborts = inl refl
Ends-cases blocks = inr (inl refl)

-- `std::thread`: one whose rounds return, one in a round that never returns, as where it waits for a
-- context that does not acknowledge its channel, and one after its `join`
pub data Thread : Type 0 where
  joinable hanging joined : Thread

-- the data channels by the thread that they lead to
pub record Worker (K Q : Type 0) : Type 0 where
  pub running : Bool
  pub thread : Option Thread
  pub data_channels : List (ℕ × EventChannel K Q)

module _ {K Q : Type 0} where
  abbrev pub new_worker : Worker K Q
  new_worker = record { running = false; thread = none; data_channels = [] }

  -- the DCHECK wants that there has been no thread
  unfoldable pub start_thread : Worker K Q → Ends (Worker K Q)
  start_thread w = elim w.thread [
    | none ↦ if w.running then returns (record w { thread = some joinable }) else aborts
    | some t ↦ aborts
  ]

  unfoldable pub start : Worker K Q → Ends (Outcome (Unit {0}) ThreadPoolError × Worker K Q)
  unfolding start_thread
  start w =
      if w.running
      then returns (failure (already_running "Already running."), w)
      else elim (start_thread (record w { running = true })) [
        | returns w' ↦ returns (success tt, w')
        | aborts ↦ aborts
        | blocks ↦ blocks
      ]

  unfoldable pub trigger_stop : Worker K Q → Outcome (Unit {0}) ThreadPoolError × Worker K Q
  trigger_stop w =
      if w.running
      then (success tt, record w { running = false })
      else (failure (not_running "NotRunning"), w)

  -- `std::thread::join` waits for `threadFunc`, which goes on while the worker runs and then ends with
  -- its round, and throws on a thread that was joined before, out of a function that is noexcept.
  unfoldable pub join : Worker K Q → Ends (Worker K Q)
  join w = elim w.thread [
    | none ↦ returns w
    | some t ↦ elim t [
      | joinable ↦ if w.running then blocks else returns (record w { thread = some joined })
      | hanging ↦ blocks
      | joined ↦ aborts
    ]
  ]

  join_stopped :
      Outcome (Unit {0}) ThreadPoolError
      → Worker K Q
      → Ends (Outcome (Unit {0}) ThreadPoolError × Worker K Q)
  unfolding join
  join_stopped (failure e) w = returns (failure e, w)
  join_stopped (success u) w = elim (join w) [
    | returns w' ↦ returns (success u, w')
    | aborts ↦ aborts
    | blocks ↦ blocks
  ]

  unfoldable pub stop_join : Worker K Q → Ends (Outcome (Unit {0}) ThreadPoolError × Worker K Q)
  unfolding trigger_stop join_stopped
  stop_join w = let (stopped, w') = trigger_stop w in join_stopped stopped w'

  unfoldable pub find_channel : ℕ → List (ℕ × EventChannel K Q) → Option (EventChannel K Q)
  find_channel id [] = none
  find_channel id ((j, c) ∷ cs) = if j == id then some c else find_channel id cs

  unfoldable pub set_channel :
      ℕ → EventChannel K Q → List (ℕ × EventChannel K Q) → List (ℕ × EventChannel K Q)
  set_channel id c [] = (id, c) ∷ []
  set_channel id c ((j, d) ∷ cs) = if j == id then (j, c) ∷ cs else (j, d) ∷ set_channel id c cs

  -- `getDataChannel`: the channel that is there, or a new one. What the registration with the context of
  -- the sender comes to is `fresh`: the channel once it is acknowledged, `aborts` where the context does
  -- not take the message, `blocks` where it never acknowledges.
  unfoldable pub get_data_channel :
      Ends (EventChannel K Q) → ℕ → Worker K Q → Ends (EventChannel K Q × Worker K Q)
  unfolding find_channel set_channel
  get_data_channel fresh id w = elim (find_channel id w.data_channels) [
    | some c ↦ returns (c, w)
    | none ↦ elim fresh [
      | returns f ↦ returns (f, record w { data_channels = set_channel id f w.data_channels })
      | aborts ↦ aborts
      | blocks ↦ blocks
    ]
  ]

-- what the message of a task carries: the task and how it ended
pub record Message (C W : Type 0) : Type 0 where
  pub task : Task C W
  pub outcome : Outcome (Unit {0}) ThreadPoolError

abbrev pub run_outcome : Option String → Outcome (Unit {0}) ThreadPoolError
run_outcome none = success tt
run_outcome (some text) = failure (task_threw_exception text)

-- the work of the message, in the event thread
unfoldable pub deliver : {C W : Type 0} → Message C W → W → W
unfolding on_success on_error
deliver m w = elim m.outcome [ success u ↦ on_success m.task w | failure e ↦ on_error m.task e w ]

abbrev pub send_text : QueueError → String
send_text (partial_write_error s) = s
send_text (queue_full s) = s

abbrev pub sent : Outcome (Unit {0}) QueueError → Outcome (Unit {0}) ThreadPoolError
sent (success u) = success u
sent (failure e) = failure (couldnt_send_result (send_text e))

module _ {K Q C W : Type 0} (os : Os K) (messages : Queue (Message C W) Q)
    (fresh : Ends (EventChannel K Q)) where
  unfoldable pub run_task :
      Task C W → Worker K Q → W → Ends (Outcome (Unit {0}) ThreadPoolError × Worker K Q × W)
  unfolding run get_data_channel try_send set_channel
  run_task task worker world =
      let (thrown, task', world') = run task world in
      let message : Message C W = record { task = task'; outcome = run_outcome thrown } in
      elim (get_data_channel fresh task.sender_id worker) [
        | aborts ↦ aborts
        | blocks ↦ blocks
        | returns found ↦
            let (channel, worker') = found in
            let (result, channel') = try_send os messages message channel in
            returns (
              sent result,
              record worker' {
                data_channels = set_channel task.sender_id channel' worker'.data_channels;
              },
              world',
            )
      ]

  -- the DCHECK on the outcome of a task
  unfoldable pub check_ran :
      Ends (Outcome (Unit {0}) ThreadPoolError × Worker K Q × W) → Ends (Worker K Q × W)
  check_ran (returns (success u, worker, world)) = returns (worker, world)
  check_ran (returns (failure e, worker, world)) = aborts
  check_ran aborts = aborts
  check_ran blocks = blocks

  -- a round of `threadFunc` with what `wait_dequeue_timed` gave; an invalid task is only logged
  unfoldable pub work_round : Option (Task C W) → Worker K Q → W → Ends (Worker K Q × W)
  unfolding check_ran run_task valid
  work_round none worker world = returns (worker, world)
  work_round (some task) worker world =
      if valid task then check_ran (run_task task worker world) else returns (worker, world)

-- The loop of `threadFunc` around its round, which returns or, at `none`, ends the process. `running_` is read at the end of round `i`: as
-- `seq_cst i` after twenty rounds, and as `relaxed i`, which may be out of date, after the others.
module _ {S : Type 0} (round : S → Option S) (seq_cst relaxed : ℕ → Bool) where
  unfoldable pub thread_func : ℕ → Bool → ℕ → ℕ → S → Ends S
  thread_func zero is_running i full_load_counter s = blocks
  thread_func (suc fuel) false i full_load_counter s = returns s
  thread_func (suc fuel) true i full_load_counter s =
      let counter = full_load_counter + 1 in
      let full = ltb 0 counter && counter % 20 == 0 in
      elim (round s) [
        | none ↦ aborts
        | some s' ↦
            thread_func fuel (if full then seq_cst i else relaxed i) (suc i)
              (if full then 0 else counter) s'
      ]
