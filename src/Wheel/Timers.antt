-- ===== src/Wheel/Timers.antt =====
-- include/kclpp/async/wheel/HTimerWheel.h, `start`, `stop` and the methods that add a callback: the timers
-- that make the levels of a wheel tick. A timer's event keeps the level that its handler ticks.
use kclpp.Prelude.{ℕ, suc, Bool, true, false, Option, none, some, ◌>>=◌, List, [], ◌∷◌, get_elem?}
use kclpp.Wheel.Levels.{HTimerWheel, LevelSettings, WheelLevel, add_new_entry}
use kclpp.Wheel.Tick.{on_level_tick}
use kclpp.Async.Event.{Libevent, BaseEvent, create_new_timer_event, del}

-- `add`, of a callback and a delay, at the time `now`
unfoldable pub add : ℕ → ℕ → ℕ → Bool → HTimerWheel → Option HTimerWheel
unfolding add_new_entry
add now callback delay repeating w =
    add_new_entry now
      (record { callback = some callback; interval = delay; added_time = 0; repeating = repeating })
      w

unfoldable pub add_repeating : ℕ → ℕ → ℕ → HTimerWheel → Option HTimerWheel
unfolding add
add_repeating now callback interval w = add now callback interval true w

unfoldable pub add_one_shot : ℕ → ℕ → ℕ → HTimerWheel → Option HTimerWheel
unfolding add
add_one_shot now callback delay w = add now callback delay false w

-- the timers of the levels: one that was reset is none
abbrev pub Timers : Type 0 → Type 0
Timers E = List (Option (BaseEvent E ℕ))

module _ {B E : Type 0} (libevent : Libevent B E) where
  -- the loop of `start` over the levels from level `i` on; a level without settings is out of range
  start_from : ℕ → List LevelSettings → List WheelLevel → B → Option (Timers E × B)
  unfolding create_new_timer_event
  start_from i settings [] b = some ([], b)
  start_from i settings (l ∷ ls) b = do
    setting ← get_elem? settings i
    (timer, b') ← create_new_timer_event libevent setting.resolution i b
    (timers, b'') ← start_from (suc i) settings ls b'
    some (some timer ∷ timers, b'')

  unfoldable pub start : HTimerWheel → B → Option (Timers E × B)
  unfolding start_from
  start w b = start_from 0 w.level_settings w.levels b

  -- `stop`; a timer that was reset is a null pointer
  unfoldable pub stop : Timers E → B → Option (Timers E × B)
  unfolding del
  stop [] b = some ([], b)
  stop (none ∷ timers) b = none
  stop (some timer ∷ timers) b = do
    b' ← del libevent timer b
    (timers', b'') ← stop timers b'
    some (none ∷ timers', b'')

-- the handler of the timer of level `i`, at the time `now`
unfoldable pub fire : {E : Type 0} → ℕ → ℕ → Timers E → HTimerWheel → Option HTimerWheel
fire i now timers w = do timer ← get_elem? timers i; event ← timer; on_level_tick event.this now w
