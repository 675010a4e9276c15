-- ===== src/Async/Event.antt =====
-- include/kclpp/async/BaseEvent.h, SignalEvent.h, CallbackEvent.cpp, TimerEvent.cpp and
-- SignalHandlerRegistry.cpp: events of libevent, and which handler an event that fires runs. libevent is
-- a parameter on a state `B` of the event base; `none` is the end of the process, by a CHECK or a DCHECK.
pub mod Dispatch
use kclpp.Prelude.{
  ℕ, String, Bool, true, false, not, Option, none, some, List, [], ◌∷◌, ◌++◌, ◌>>=◌, has_value,
  if◌then◌else◌,
}
use kclpp.Outcome.{Outcome, success, failure}

-- the flags of an event, which the source keeps as the bits of a `short`
pub record What : Type 0 where
  pub ev_timeout : Bool
  pub ev_read : Bool
  pub ev_write : Bool
  pub ev_signal : Bool
  pub ev_persist : Bool

abbrev pub no_flags : What
no_flags = record {
  ev_timeout = false;
  ev_read = false;
  ev_write = false;
  ev_signal = false;
  ev_persist = false;
}

-- The calls of libevent. A number that is negative in the source is `none`, as the null pointer is.
pub record Libevent (B E : Type 0) : Type 0 where
  pub event_new : Option ℕ → What → B → Option E × B
  pub event_get_fd : E → Option ℕ
  pub event_add : E → Option ℕ → B → B
  -- whether the event was removed, which is the result 0
  pub event_del : E → B → Bool × B
  pub event_pending : E → B → Bool

-- the four methods that a class hands to `BaseEvent`
pub record Handlers (W : Type 0) : Type 0 where
  pub on_readable : W → Option W
  pub on_writable : W → Option W
  pub on_signal : W → Option W
  pub on_timeout : W → Option W

module _ {W : Type 0} where
  -- a branch of `libeventCallback`
  unfoldable pub when : Bool → (W → Option W) → W → Option W
  when true h w = h w
  when false h w = some w

  unfoldable pub libevent_callback : Handlers W → What → W → Option W
  unfolding when
  libevent_callback h what w = do
    w ← when what.ev_read h.on_readable w
    w ← when what.ev_write h.on_writable w
    w ← when what.ev_signal h.on_signal w
    when what.ev_timeout h.on_timeout w

-- `CallbackEvent`, whose three callbacks may be empty
pub record CallbackEvent (W : Type 0) : Type 0 where
  pub read_callback : Option (W → W)
  pub write_callback : Option (W → W)
  pub timeout_callback : Option (W → W)

module _ {W : Type 0} where
  -- an empty callback is only logged
  unfoldable pub call_or_log : Option (W → W) → W → Option W
  call_or_log none w = some w
  call_or_log (some f) w = some (f w)

  -- an empty callback ends the process
  unfoldable pub call_checked : Option (W → W) → W → Option W
  call_checked none w = none
  call_checked (some f) w = some (f w)

  unfoldable pub callback_event : CallbackEvent W → Handlers W
  unfolding call_or_log
  callback_event c = record {
    on_readable = call_or_log c.read_callback;
    on_writable = call_or_log c.write_callback;
    on_signal = some;
    on_timeout = call_or_log c.timeout_callback;
  }

  -- `TimerEvent`, with its callback
  unfoldable pub timer_event : Option (W → W) → Handlers W
  unfolding call_checked
  timer_event f = record {
    on_readable = some;
    on_writable = some;
    on_signal = some;
    on_timeout = call_checked f;
  }

  -- `SignalEvent`, with its callback
  unfoldable pub signal_event : Option (W → W) → Handlers W
  unfolding call_checked
  signal_event f = record {
    on_readable = λ w. none;
    on_writable = λ w. none;
    on_signal = call_checked f;
    on_timeout = λ w. none;
  }

-- `BaseEvent`, with what the class that inherits from it keeps
pub record BaseEvent (E H : Type 0) : Type 0 where
  pub event : Option E
  pub this : H

module _ {E H : Type 0} where
  unfoldable pub good : BaseEvent E H → Bool
  good e = has_value e.event

module _ {B E : Type 0} (libevent : Libevent B E) where
  fd_outcome : Option ℕ → Outcome ℕ String
  fd_outcome none = failure "Valid event, but invalid file descriptor."
  fd_outcome (some fd) = success fd

  unfoldable pub get_fd : {H : Type 0} → BaseEvent E H → Outcome ℕ String
  unfolding fd_outcome
  get_fd e = elim e.event [
    | none ↦ failure "Invalid event."
    | some p ↦ fd_outcome (libevent.event_get_fd p)
  ]

  -- `createNewEvent`: the result of `event_new` is not looked at
  unfoldable pub create_new_event : {H : Type 0} → Option ℕ → What → H → B → BaseEvent E H × B
  create_new_event fd what h b =
      let (p, b') = libevent.event_new fd what b in (record { event = p; this = h }, b')

  unfoldable pub create_new_signal_event : {H : Type 0} → ℕ → H → B → BaseEvent E H × B
  unfolding create_new_event
  create_new_signal_event signum h b =
      create_new_event (some signum) (record no_flags { ev_signal = true; ev_persist = true }) h b

  -- `add`, with the timeout or the null pointer
  unfoldable pub add : {H : Type 0} → BaseEvent E H → Option ℕ → B → Option B
  add e timeout b = elim e.event [ none ↦ none | some p ↦ some (libevent.event_add p timeout b) ]

  removed : Bool × B → Option B
  removed (true, b) = some b
  removed (false, b) = none

  -- `del`: a failure ends the process
  unfoldable pub del : {H : Type 0} → BaseEvent E H → B → Option B
  unfolding removed
  del e b = elim e.event [ none ↦ none | some p ↦ removed (libevent.event_del p b) ]

  unfoldable pub added : {H : Type 0} → ℕ → BaseEvent E H × B → Option (BaseEvent E H × B)
  unfolding add
  added settings (e, b) = do b' ← add e (some settings) b; some (e, b')

  unfoldable pub create_new_timer_event : {H : Type 0} → ℕ → H → B → Option (BaseEvent E H × B)
  unfolding added create_new_event
  create_new_timer_event settings h b =
      added settings (create_new_event none (record no_flags { ev_persist = true }) h b)

  -- `TimerEvent::createNew`
  unfoldable pub timer_create_new : {W : Type 0} → Bool → B → BaseEvent E (Option (W → W)) × B
  unfolding create_new_event
  timer_create_new persist b =
      create_new_event none (record no_flags { ev_persist = persist }) none b

  unfoldable pub is_pending : {H : Type 0} → BaseEvent E H → B → Bool
  is_pending e b = elim e.event [ none ↦ false | some p ↦ libevent.event_pending p b ]

-- `SignalHandlerRegistry`: its events with their callbacks
pub record SignalHandlerRegistry (E W : Type 0) : Type 0 where
  pub handlers : List (BaseEvent E (Option (W → W)))

module _ {B E W : Type 0} (libevent : Libevent B E) where
  unfoldable pub keep_handler :
      SignalHandlerRegistry E W
      → BaseEvent E (Option (W → W)) × B
      → Option (SignalHandlerRegistry E W × B)
  unfolding add
  keep_handler r (evt, b) = do
    b' ← add libevent evt none b
    some (record { handlers = r.handlers ++ (evt ∷ []) }, b')

  unfoldable pub add_handler :
      ℕ → (W → W) → SignalHandlerRegistry E W → B → Option (SignalHandlerRegistry E W × B)
  unfolding keep_handler create_new_signal_event
  add_handler signo callable r b =
      keep_handler r (create_new_signal_event libevent signo (some callable) b)
