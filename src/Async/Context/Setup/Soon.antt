-- ===== src/Async/Context/Setup/Soon.antt =====
-- When the work that is given to `runSoon` runs.
use kclpp.Prelude.{
  ℕ, ◌≡◌, refl, ◌∙◌, Option, some, none, >>=-eq-some, List, [], ◌∷◌, true, false, arith, inl, inr,
  Bool-cases, has_value, replicate, ◌-◌,
}
use kclpp.Wheel.Bucket.{
  Entry, get_remaining_time, get_slot_idx, get_slot_at, new_bucket, advance_bucket,
}
use kclpp.Wheel.Bucket
use kclpp.Wheel.Buffer.{create, get_at, set_at, advance}
use kclpp.Wheel.Levels.{
  HTimerWheel, WheelLevel, LevelSettings, add_new_entry, make_levels, add_entry, add_to_levels,
  execute_pending_entries, repeating, numbers, good_entries,
}
use kclpp.Wheel.Levels
use kclpp.Wheel.Tick.{
  on_level_tick, on_level_tick_impl, on_after_tick, advance_buckets, process_bucket1, take_slot,
  add_sub_entries, re_add_repeating_entries,
}
use kclpp.Wheel.Timers.{Timers, start, add_one_shot}
use kclpp.Async.Event.{Libevent}
use kclpp.Async.EventFd.{Os}
use kclpp.Async.Queue.{Queue}
use kclpp.Async.Channel.{EventChannel}
use kclpp.Async.Context.Setup.{
  ContextParts, create_new, bind_control_channel, run_soon, wheel_settings, with_wheel, with_timers,
}

-- the wheel of a new context
abbrev pub new_wheel : Option HTimerWheel
new_wheel = Levels.create_new wheel_settings

-- A one-shot entry of five milliseconds in the wheel of a new context.
abbrev soon_entry : ℕ → ℕ → Entry
soon_entry now callback = record {
  callback = some callback;
  interval = 5;
  added_time = now;
  repeating = false;
}

soon_remaining : (now callback : ℕ) → get_remaining_time (soon_entry now callback) now ≡ 5
unfolding get_remaining_time
soon_remaining now callback = ground arith

abbrev pub level : ℕ → ℕ → ℕ → List Entry → WheelLevel
level resolution slots skip entries = record {
  bucket = record {
    is_bottom = true;
    resolution = resolution;
    num_slots = slots;
    buffer = record { buff = entries ∷ replicate (slots - 1) []; current_index = 0 };
  };
  tick_counter = 0;
  skip_tick = skip;
}

-- The wheel of a new context with the entries in the first slot of its lowest level.
abbrev pub wheel_with : List Entry → HTimerWheel
wheel_with entries = record {
  level_settings = wheel_settings;
  levels =
      level 10 10 10 entries ∷ level 100 10 10 [] ∷ level 1000 60 60 [] ∷ level 60000 60 0 [] ∷ [];
  repeating_entries_to_add = [];
  sub_entries_to_add = [];
  entries_to_execute = [];
  executed = [];
}

made_wheel : new_wheel ≡ some (wheel_with [])
unfolding Levels.create_new make_levels wheel_settings new_bucket create
made_wheel = refl

soon_added :
    (now callback : ℕ)
    → add_one_shot now callback 5 (wheel_with []) ≡ some (wheel_with (soon_entry now callback ∷ []))
unfolding add_one_shot add_new_entry add_entry add_to_levels Bucket.add_entry get_slot_idx
    get_slot_at get_at set_at
soon_added now callback = rw (soon_remaining now callback) refl

-- The wheel after the first tick of its lowest level, with what it ran.
abbrev ticked : List ℕ → HTimerWheel
ticked callbacks = record (wheel_with []) {
  levels =
      record {
        bucket = record {
          is_bottom = true;
          resolution = 10;
          num_slots = 10;
          buffer = record { buff = replicate 10 []; current_index = 1 };
        };
        tick_counter = 1;
        skip_tick = 10;
      }
      ∷ level 100 10 10 []
      ∷ level 1000 60 60 []
      ∷ level 60000 60 0 []
      ∷ [];
  executed = callbacks;
}

soon_ticked :
    (now later callback : ℕ)
    → on_level_tick 0 later (wheel_with (soon_entry now callback ∷ []))
      ≡ some (ticked (callback ∷ []))
unfolding on_level_tick on_level_tick_impl on_after_tick advance_buckets process_bucket1 take_slot
    get_slot_idx get_slot_at get_at set_at execute_pending_entries repeating numbers good_entries
    advance_bucket advance add_sub_entries re_add_repeating_entries
soon_ticked now later callback = refl

module _ {B E K T Q W : Type 0} (libevent : Libevent B E) (os : Os K) (queue : Queue T Q)
    (work : T → EventChannel K Q → W → EventChannel K Q × W) where
  bind_control_channel-wheel :
      (fuel : ℕ) (ctx ctx' : ContextParts E K Q W) (b : B) (w : W) (r : B × W)
      → bind_control_channel libevent os queue work fuel ctx b w ≡ some (ctx', r)
      → ctx'.wheel ≡ ctx.wheel
  unfolding bind_control_channel
  bind_control_channel-wheel fuel ctx ctx' b w r h =
      elim (Bool-cases (has_value ctx.control_event)) [
        | inl e ↦ ground (arith, h, e)
        | inr e ↦ ground (arith, h, e)
      ]

  -- a context before its control channel is bound
  abbrev context : EventChannel K Q → HTimerWheel → Timers E → ContextParts E K Q W
  context channel wheel timers = record {
    wheel = wheel;
    timers = timers;
    registry = record { handlers = [] };
    control_channel = channel;
    control_event = none;
  }

  create_new-wheel :
      (fuel : ℕ) (channel : EventChannel K Q) (b : B) (w : W) (ctx : ContextParts E K Q W)
      (r : B × W)
      → create_new libevent os queue work fuel channel b w ≡ some (ctx, r)
      → ctx.wheel ≡ wheel_with []
  unfolding create_new with_wheel with_timers
  create_new-wheel fuel channel b w ctx r h =
      let setup = with_wheel libevent os queue work fuel channel b w in
      let (wheel, made, h₁) = >>=-eq-some (Levels.create_new wheel_settings) setup h in
      let finish = with_timers libevent os queue work fuel channel w wheel in
      let ((timers, b'), started, h₂) = >>=-eq-some (start libevent wheel b) finish h₁ in
      let same : wheel ≡ wheel_with [] = cc made_wheel in
      bind_control_channel-wheel fuel (context channel wheel timers) ctx b' w r h₂ ∙ same

  -- Work that `runSoon` is given as the first of a new context is put into the wheel and not run; the first
  -- tick of the wheel's lowest level, whenever it comes, runs it once.
  pub run_soon-first_tick :
      (fuel now later callback : ℕ) (channel : EventChannel K Q) (b : B) (w : W)
      (ctx : ContextParts E K Q W) (r : B × W)
      → create_new libevent os queue work fuel channel b w ≡ some (ctx, r)
      → (ctx' : ContextParts E K Q W) × (wheel : HTimerWheel) × (run_soon now callback ctx
          ≡ some ctx')
        × (ctx'.wheel.executed ≡ [])
        × (on_level_tick 0 later ctx'.wheel ≡ some wheel)
        × (wheel.executed ≡ callback ∷ [])
  unfolding run_soon
  run_soon-first_tick fuel now later callback channel b w ctx r h =
      let same = create_new-wheel fuel channel b w ctx r h in
      (
        record ctx { wheel = wheel_with (soon_entry now callback ∷ []) },
        ticked (callback ∷ []),
        rw same (rw (soon_added now callback) refl),
        refl,
        soon_ticked now later callback,
        refl,
      )
