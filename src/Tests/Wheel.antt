-- ===== src/Tests/Wheel.antt =====
-- A bucket of four slots of 10 ms.
use kclpp.Prelude.{◌≡◌, refl, true, false, some, [], ◌∷◌, arith}
use kclpp.Wheel.Bucket.{new_bucket, Entry, Bucket, get_slot_idx}
use kclpp.Wheel.Levels.{create_new, add_new_entry, LevelSettings, HTimerWheel, WheelLevel}
use kclpp.Wheel.Tick.OneShot.{add_new_entry-run_ticks}
use kclpp.Wheel.Tick.Waiting.{run_ticks}
use kclpp.Wheel.Tick.{on_level_tick}

abbrev bucket : Bucket
bucket = record {
  is_bottom = true;
  resolution = 10;
  num_slots = 4;
  buffer = record { buff = [] ∷ [] ∷ [] ∷ [] ∷ []; current_index = 3 };
}

abbrev entry : Entry
entry = record { callback = some 1; interval = 25; added_time = 100; repeating = false }

-- A wheel of one level, with one entry in the slot of delay 0.
abbrev level : WheelLevel
level = record {
  bucket = record bucket {
    buffer = record { buff = [] ∷ [] ∷ [] ∷ (entry ∷ []) ∷ []; current_index = 3 };
  };
  tick_counter = 0;
  skip_tick = 0;
}

abbrev wheel : HTimerWheel
wheel = record {
  level_settings = record { resolution = 10; slots = 4 } ∷ [];
  levels = level ∷ [];
  repeating_entries_to_add = [];
  sub_entries_to_add = [];
  entries_to_execute = [];
  executed = [];
}

abbrev settings : LevelSettings
settings = record { resolution = 10; slots = 4 }

asked : get_slot_idx (new_bucket true 10 4) 25 ≡ some 1
unfolding get_slot_idx new_bucket
asked = refl

add_new_entry-run_ticks_example :
    (w added waited fired : HTimerWheel) × (create_new (settings ∷ []) ≡ some w)
    × (add_new_entry 100 entry w ≡ some added)
    × (run_ticks (110 ∷ []) added ≡ some waited)
    × (waited.executed ≡ [])
    × (on_level_tick 0 120 waited ≡ some fired)
    × (fired.executed ≡ 1 ∷ [])
add_new_entry-run_ticks_example =
    add_new_entry-run_ticks settings 100 120 1 entry (110 ∷ []) (omega arith) (omega arith)
      (omega arith) refl refl asked
