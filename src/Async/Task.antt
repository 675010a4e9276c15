-- ===== src/Async/Task.antt =====
-- src/kclpp/async/tpool/Task.cpp and CallbackTask.cpp: a piece of work for a worker thread, and what
-- the event thread that asked for it is told. A task runs on a world `W`. What its two callbacks
-- share, such as the outcome behind a `shared_ptr`, is its cell `C`. An exception is its text.
use kclpp.Prelude.{ℕ, String, Bool, ◌&&◌, Option, none, some, ltb, has_value}
use kclpp.Outcome.{Outcome, success, failure}

pub data ThreadPoolError : Type 0 where
  thread_pool_error not_running already_running invalid_settings : String → ThreadPoolError
  task_threw_exception couldnt_send_result : String → ThreadPoolError

abbrev pub what : ThreadPoolError → String
what (thread_pool_error s) = s
what (not_running s) = s
what (already_running s) = s
what (invalid_settings s) = s
what (task_threw_exception s) = s
what (couldnt_send_result s) = s

-- `CallbackTask`, with the members of `Task`; thread 0 is no thread
pub record Task (C W : Type 0) : Type 0 where
  pub sender_context : Option ℕ
  pub sender_id : ℕ
  pub cell : C
  pub work : Option (C → W → Option String × C × W)
  pub on_finished : Option (Outcome (Unit {0}) ThreadPoolError → C → W → W)

module _ {C W : Type 0} where
  unfoldable pub has_good_context : Task C W → Bool
  has_good_context t = has_value t.sender_context && ltb 0 t.sender_id

  -- `CallbackTask::good`
  unfoldable pub is_good : Task C W → Bool
  is_good t = has_value t.work && has_value t.on_finished

  unfoldable pub valid : Task C W → Bool
  unfolding has_good_context is_good
  valid t = has_good_context t && is_good t

  -- `CallbackTask::run`: what it throws, the task with its cell, and the world; an empty function
  -- is not called, since the task is valid
  unfoldable pub run : Task C W → W → Option String × Task C W × W
  run t w = elim t.work [
    | none ↦ (none, t, w)
    | some f ↦ let (thrown, c, w') = f t.cell w in (thrown, record t { cell = c }, w')
  ]

  unfoldable pub call_finished : Task C W → Outcome (Unit {0}) ThreadPoolError → W → W
  call_finished t outcome w = elim t.on_finished [ none ↦ w | some f ↦ f outcome t.cell w ]

  unfoldable pub on_success : Task C W → W → W
  unfolding call_finished
  on_success t w = call_finished t (success tt) w

  unfoldable pub on_error : Task C W → ThreadPoolError → W → W
  unfolding call_finished
  on_error t e w = call_finished t (failure (thread_pool_error (what e))) w

  -- `CallbackTask::createFromEventThread`, in the thread `id`
  unfoldable pub create_from_event_thread :
      ℕ
      → ℕ
      → C
      → (C → W → Option String × C × W)
      → (Outcome (Unit {0}) ThreadPoolError → C → W → W)
      → Task C W
  create_from_event_thread id ctx c f done = record {
    sender_context = some ctx;
    sender_id = id;
    cell = c;
    work = some f;
    on_finished = some done;
  }
