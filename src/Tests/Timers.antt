-- ===== src/Tests/Timers.antt =====
-- A library of events that counts them, the timers of a small wheel, and a new event context.
use kclpp.Prelude.{ℕ, ◌+◌, ◌≡◌, refl, true, Option, none, some, List, [], ◌∷◌, arith, ◌*◌}
use kclpp.Async.Event.{Libevent, BaseEvent, create_new_timer_event, create_new_event, add}
use kclpp.Wheel.Bucket.{new_bucket, get_slot_idx, rounded}
use kclpp.Wheel.Bucket.Slots.{get_slot_idx-closed, counted_slot}
use kclpp.Wheel.Levels.{HTimerWheel, make_levels}
use kclpp.Wheel.Tick.{on_level_tick}
use kclpp.Wheel.Timers.{start}
use kclpp.Async.Context.Setup.{
  ContextParts, create_new, run_soon, bind_control_channel, wheel_settings,
}
use kclpp.Async.Descriptor.{get, good}
use kclpp.Async.EventFd.{read}
use kclpp.Async.Channel.{drain_control_channel, mpsc_try_read, quiet}
use kclpp.Wheel.Buffer.{create}
use kclpp.Wheel.Levels
use kclpp.Async.Context.Setup.Soon.{run_soon-first_tick, wheel_with}
use kclpp.Tests.Async.{os, list_queue}
use kclpp.Tests.Channels.{channel, note}

-- The base is the number of events that were made.
abbrev events : Libevent ℕ ℕ
events = record {
  event_new = λ fd what b. (some b, b + 1);
  event_get_fd = λ p. none;
  event_add = λ p timeout b. b;
  event_del = λ p b. (true, b);
  event_pending = λ p b. true;
}

-- A new context, on a control channel with nothing in it.
abbrev timer : ℕ → Option (BaseEvent ℕ ℕ)
timer n = some (record { event = some n; this = n })

abbrev parts : ContextParts ℕ ℕ (List ℕ) (List ℕ)
parts = record {
  wheel = wheel_with [];
  timers = timer 0 ∷ timer 1 ∷ timer 2 ∷ timer 3 ∷ [];
  registry = record { handlers = [] };
  control_channel = channel 0 [];
  control_event = some (record { event = some 4; this = tt });
}

new_parts :
    create_new events os list_queue (quiet note) 1 (channel 0 []) 0 [] ≡ some (parts, (5, []))
unfolding create_new Levels.create_new make_levels wheel_settings new_bucket create start
    create_new_timer_event bind_control_channel create_new_event add get mpsc_try_read
    drain_control_channel good read
new_parts = refl

run_soon-first_tick_example :
    (ctx : ContextParts ℕ ℕ (List ℕ) (List ℕ)) × (wheel : HTimerWheel) × (run_soon 1000 6 parts
      ≡ some ctx)
    × (ctx.wheel.executed ≡ [])
    × (on_level_tick 0 1013 ctx.wheel ≡ some wheel)
    × (wheel.executed ≡ 6 ∷ [])
run_soon-first_tick_example =
    run_soon-first_tick events os list_queue (quiet note) 1 1000 1013 6 (channel 0 []) 0 [] parts
      (5, []) new_parts

get_slot_idx-closed_example :
    get_slot_idx (new_bucket true 10 4) (2 * 10 + 5) ≡ some (rounded true 10 5 (counted_slot 2 5))
unfolding new_bucket
get_slot_idx-closed_example =
    get_slot_idx-closed (new_bucket true 10 4) 2 5 (omega arith) (omega arith)
