-- ===== src/Async/Context/Setup.antt =====
-- src/kclpp/async/EventContext.cpp, `createNew`, `bindControlChannel` and `runSoon`: the parts of the event
-- thread, made one after the other. A callback that is given to the wheel is a number.
pub mod Soon
use kclpp.Prelude.{
  ℕ, String, Bool, true, false, Option, none, some, ◌>>=◌, List, [], ◌∷◌, has_value, if◌then◌else◌,
}
use kclpp.Wheel.Levels.{HTimerWheel, LevelSettings}
use kclpp.Wheel.Levels
use kclpp.Wheel.Timers.{Timers, start, add_one_shot}
use kclpp.Async.Event.{
  Libevent, BaseEvent, SignalHandlerRegistry, What, no_flags, create_new_event, add,
}
use kclpp.Async.EventFd.{Os}
use kclpp.Async.Descriptor.{get}
use kclpp.Async.Queue.{Queue}
use kclpp.Async.Channel.{EventChannel, drain_control_channel}
use kclpp.Outcome.{Outcome, success, failure}

-- The parts of an `EventContext` but its data channels, which `Context` models. The handler of the control
-- event drains the control channel, and is not kept.
pub record ContextParts (E K Q W : Type 0) : Type 0 where
  pub wheel : HTimerWheel
  pub timers : Timers E
  pub registry : SignalHandlerRegistry E W
  pub control_channel : EventChannel K Q
  pub control_event : Option (BaseEvent E (Unit {0}))

unfoldable pub wheel_settings : List LevelSettings
wheel_settings =
    record { resolution = 10; slots = 10 }
    ∷ record { resolution = 100; slots = 10 }
    ∷ record { resolution = 1000; slots = 60 }
    ∷ record { resolution = 60000; slots = 60 }
    ∷ []

module _ {B E K T Q W : Type 0} (libevent : Libevent B E) (os : Os K) (queue : Queue T Q)
    (work : T → EventChannel K Q → W → EventChannel K Q × W) where
  result_of : Outcome ℕ String → Option ℕ
  result_of (success fd) = some fd
  result_of (failure e) = none

  -- `CHECK(!controlEvent_)`, the read event, and a first drain of the channel
  unfoldable pub bind_control_channel :
      ℕ → ContextParts E K Q W → B → W → Option (ContextParts E K Q W × (B × W))
  unfolding create_new_event add drain_control_channel result_of get
  bind_control_channel fuel ctx b w = if has_value ctx.control_event then none else do
    fd ← result_of (get ctx.control_channel.event_fd.descriptor)
    let (evt, b') =
        create_new_event libevent (some fd) (record no_flags { ev_read = true; ev_persist = true })
          tt b
    b'' ← add libevent evt none b'
    (c, w') ← drain_control_channel os queue work fuel ctx.control_channel w
    some (record ctx { control_channel = c; control_event = some evt }, (b'', w'))

  with_timers :
      ℕ
      → EventChannel K Q
      → W
      → HTimerWheel
      → Timers E × B
      → Option (ContextParts E K Q W × (B × W))
  unfolding bind_control_channel
  with_timers fuel channel w wheel (timers, b) =
      bind_control_channel fuel
        (record {
          wheel = wheel;
          timers = timers;
          registry = record { handlers = [] };
          control_channel = channel;
          control_event = none;
        })
        b w

  with_wheel : ℕ → EventChannel K Q → B → W → HTimerWheel → Option (ContextParts E K Q W × (B × W))
  unfolding start with_timers
  with_wheel fuel channel b w wheel = start libevent wheel b >>= with_timers fuel channel w wheel

  -- `createNew`, with a control channel that was just made
  unfoldable pub create_new : ℕ → EventChannel K Q → B → W → Option (ContextParts E K Q W × (B × W))
  unfolding wheel_settings with_wheel Levels.create_new
  create_new fuel channel b w = Levels.create_new wheel_settings >>= with_wheel fuel channel b w

-- `runSoon`, at the time `now`
unfoldable pub run_soon :
    {E K Q W : Type 0} → ℕ → ℕ → ContextParts E K Q W → Option (ContextParts E K Q W)
unfolding add_one_shot
run_soon now callback ctx = do
  wheel ← add_one_shot now callback 5 ctx.wheel
  some (record ctx { wheel = wheel })
