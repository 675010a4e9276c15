-- ===== src/Async/Call.antt =====
-- A blocking call of a service client, passed to the pool from the event thread and answered there: the
-- body that the methods of src/kclpp/dynamo/KCLDynamoClient.cpp and
-- src/kclpp/kinesis/KCLKinesisClient.cpp share. The client library is a function `invoke`. The cell of
-- the task is the outcome behind `outcomePtr`, which starts as a default outcome.
pub mod Answers
pub mod Refusal
use kclpp.Prelude.{ℕ, String, Option, none}
use kclpp.Outcome.{Outcome}
use kclpp.Async.EventFd.{Os}
use kclpp.Async.Queue.{Queue}
use kclpp.Async.Channel.{EventChannel}
use kclpp.Async.Context.{run_in_event_thread}
use kclpp.Async.Task.{Task, ThreadPoolError, create_from_event_thread}
use kclpp.Async.Pool.{ThreadPool, try_submit}

module _ {Request Answer W : Type 0} (invoke : Request → W → Answer × W) where
  -- `*outcomePtr = state_->client->...(request)`
  unfoldable pub call_work : Request → Answer → W → Option String × Answer × W
  call_work request cell w = let (answer, w') = invoke request w in (none, answer, w')

  -- `callback(*outcomePtr)`, whatever the outcome of the task was
  unfoldable pub call_done : (Answer → W → W) → Outcome (Unit {0}) ThreadPoolError → Answer → W → W
  call_done callback outcome cell w = callback cell w

  -- the task, made in the thread `id` for the context `ctx`
  unfoldable pub call_task : ℕ → ℕ → Answer → Request → (Answer → W → W) → Task Answer W
  unfolding create_from_event_thread
  call_task id ctx default_answer request callback =
      create_from_event_thread id ctx default_answer (call_work request) (call_done callback)

  -- The work in the event thread; the outcome of `trySubmit` is dropped.
  unfoldable pub submit_call :
      {K Q B : Type 0}
      → Queue (Task Answer W) B
      → ℕ
      → ℕ
      → Answer
      → Request
      → (Answer → W → W)
      → ThreadPool K Q B
      → ThreadPool K Q B
  unfolding call_task try_submit
  submit_call tasks id ctx default_answer request callback pool =
      (try_submit tasks (call_task id ctx default_answer request callback) pool).1

  -- The method: the closure goes to the event thread over the control channel, whose messages are
  -- functions on the pool. `none` is the failed DCHECK.
  unfoldable pub call_async :
      {K K' Q Q' B : Type 0}
      → Os K'
      → Queue (ThreadPool K Q B → ThreadPool K Q B) Q'
      → Queue (Task Answer W) B
      → ℕ
      → ℕ
      → Answer
      → Request
      → (Answer → W → W)
      → EventChannel K' Q'
      → Option (EventChannel K' Q')
  unfolding run_in_event_thread submit_call
  call_async os control tasks id ctx default_answer request callback c =
      run_in_event_thread os control (submit_call tasks id ctx default_answer request callback) c
