-- ===== src/Async/Delivery.antt =====
-- The pool, its workers and the event thread together: a task is submitted, a worker runs it and sends
-- its result over a data channel, and the event thread drains the channel (ThreadPool.cpp,
-- ThreadPoolWorker.cpp and EventContext.cpp of src/kclpp/async). The steps come in any order.
pub mod Conservation
use kclpp.Prelude.{
  ℕ, suc, ◌+◌, ◌≡◌, Bool, true, false, Option, none, some, List, [], ◌∷◌, ◌++◌, get_elem?, set,
  if◌then◌else◌,
}
use kclpp.Outcome.{success}
use kclpp.Async.EventFd.{Os}
use kclpp.Async.Queue.{Queue}
use kclpp.Async.Channel.{EventChannel, drain_data_channel}
use kclpp.Async.Task.{Task, valid}
use kclpp.Async.Worker.{
  Ends, returns, Worker, Message, deliver, find_channel, set_channel, work_round,
}
use kclpp.Async.Pool.{ThreadPool, try_submit}

-- The pool and the world. The rest is a record of what happened: the tasks that the pool accepted,
-- those that a worker found invalid, and the messages whose work was done.
pub record System (K Q B C W : Type 0) : Type 0 where
  pub pool : ThreadPool K Q B
  pub world : W
  pub accepted : List (Task C W)
  pub refused : List (Task C W)
  pub finished : List (Message C W)

-- The work of a message in the event thread, which also notes it.
abbrev pub deliver_noted :
    {C W : Type 0} → Message C W → W × List (Message C W) → W × List (Message C W)
deliver_noted m (w, log) = (deliver m w, m ∷ log)

-- a task that was taken and is not valid is only logged
abbrev pub noted : {C W : Type 0} → Option (Task C W) → List (Task C W) → List (Task C W)
noted none log = log
noted (some t) log = if valid t then log else t ∷ log

module _ {K Q B C W : Type 0} (os : Os K) (messages : Queue (Message C W) Q)
    (tasks : Queue (Task C W) B) (fresh : Ends (EventChannel K Q)) where
  pub data Steps (s : System K Q B C W) : System K Q B C W → Type 0 where
    submit :
        (t : Task C W) (p : ThreadPool K Q B)
        → try_submit tasks t s.pool ≡ (success tt, p)
        → Steps s (record s { pool = p; accepted = t ∷ s.accepted })
    work :
        (i : ℕ) (worker worker' : Worker K Q) (t : Option (Task C W)) (b : B) (world : W)
        → get_elem? s.pool.workers i ≡ some worker
        → tasks.try_dequeue s.pool.work_queue ≡ (t, b)
        → work_round os messages fresh t worker s.world ≡ returns (worker', world)
        → Steps s (record s {
          pool = record s.pool { work_queue = b; workers = set s.pool.workers i worker' };
          world = world;
          refused = noted t s.refused;
        })
    wake :
        (i id fuel : ℕ) (worker : Worker K Q) (c c' : EventChannel K Q) (world : W)
        (log : List (Message C W))
        → get_elem? s.pool.workers i ≡ some worker
        → find_channel id worker.data_channels ≡ some c
        → drain_data_channel os messages deliver_noted fuel c (s.world, s.finished)
          ≡ some (c', (world, log))
        → Steps s (record s {
          pool = record s.pool {
            workers =
                set s.pool.workers i
                  (record worker { data_channels = set_channel id c' worker.data_channels });
          };
          world = world;
          finished = log;
        })

  pub data Reaches (s : System K Q B C W) : System K Q B C W → Type 0 where
    here : Reaches s s
    further : {s' s'' : System K Q B C W} → Reaches s s' → Steps s' s'' → Reaches s s''
