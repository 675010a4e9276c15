-- ===== src/Wheel/Levels.antt =====
-- include/kclpp/async/wheel/HTimerWheel.h, `HTimerWheel`: the levels, and what a tick of one does.
-- The clock is read once for a tick. A callback is run by noting its number; it does not itself
-- add entries to the wheel. A check that fails and an exception are none. The level timers are
-- those of the event loop and are left out.
pub mod Entries
use kclpp.Prelude.{
  ℕ, zero, suc, ◌+◌, ◌-◌, ◌/◌, Bool, true, false, ◌&&◌, Option, none, some, List, [], ◌∷◌, ◌++◌,
  length, get_elem?, set, ltb, ◌==◌, if◌then◌else◌,
}
use kclpp.Wheel.Buffer.{set_at}
use kclpp.Wheel.Bucket
use kclpp.Wheel.Bucket.{
  Entry, Bucket, good, set_added_time, get_remaining_time, new_bucket, time_capacity, get_slot_at,
  get_slot_idx, advance_bucket,
}

pub record LevelSettings : Type 0 where
  pub resolution : ℕ
  pub slots : ℕ

pub record WheelLevel : Type 0 where
  pub bucket : Bucket
  pub tick_counter : ℕ
  pub skip_tick : ℕ

pub record HTimerWheel : Type 0 where
  pub level_settings : List LevelSettings
  pub levels : List WheelLevel
  pub repeating_entries_to_add : List Entry
  pub sub_entries_to_add : List Entry
  pub entries_to_execute : List Entry
  -- the callbacks that have run, oldest first
  pub executed : List ℕ

-- `initLevels`. Its index never moves, so every bucket is made a bottom bucket.
unfoldable pub make_levels : List LevelSettings → List WheelLevel
make_levels [] = []
make_levels (s ∷ []) =
    record { bucket = new_bucket true s.resolution s.slots; tick_counter = 0; skip_tick = 0 } ∷ []
make_levels (s ∷ p ∷ ps) =
    record {
      bucket = new_bucket true s.resolution s.slots;
      tick_counter = 0;
      skip_tick = p.resolution / s.resolution;
    }
    ∷ make_levels (p ∷ ps)

-- `createNew`; without levels the loop of `initLevels` runs out of bounds
unfoldable pub create_new : List LevelSettings → Option HTimerWheel
unfolding make_levels
create_new [] = none
create_new (s ∷ ss) = some (record {
  level_settings = s ∷ ss;
  levels = make_levels (s ∷ ss);
  repeating_entries_to_add = [];
  sub_entries_to_add = [];
  entries_to_execute = [];
  executed = [];
})

abbrev pub with_bucket : WheelLevel → Option Bucket → Option WheelLevel
with_bucket l none = none
with_bucket l (some b) = some (record l { bucket = b })

abbrev cons_level : Option WheelLevel → List WheelLevel → Option (List WheelLevel)
cons_level none ls = none
cons_level (some l) ls = some (l ∷ ls)

abbrev under_level : WheelLevel → Option (List WheelLevel) → Option (List WheelLevel)
under_level l none = none
under_level l (some ls) = some (l ∷ ls)

-- the loop of `addEntry`: the first level whose capacity is above the remaining time
unfoldable pub add_to_levels : ℕ → Entry → List WheelLevel → Option (List WheelLevel)
add_to_levels now e [] = none
add_to_levels now e (l ∷ ls) =
    let rest = add_to_levels now e ls in
    if ltb (get_remaining_time e now) (time_capacity l.bucket)
    then cons_level (with_bucket l (Bucket.add_entry l.bucket now e)) ls
    else under_level l rest

abbrev with_levels : HTimerWheel → Option (List WheelLevel) → Option HTimerWheel
with_levels w none = none
with_levels w (some ls) = some (record w { levels = ls })

unfoldable pub add_entry : ℕ → Entry → HTimerWheel → Option HTimerWheel
unfolding add_to_levels
add_entry now e w = with_levels w (add_to_levels now e w.levels)

unfoldable pub add_new_entry : ℕ → Entry → HTimerWheel → Option HTimerWheel
unfolding add_entry
add_new_entry now e w = add_entry now (set_added_time now e) w

abbrev entry_number : Option ℕ → List ℕ
entry_number none = []
entry_number (some n) = n ∷ []

unfoldable pub repeating : List Entry → List Entry
repeating [] = []
repeating (e ∷ es) = let rest = repeating es in if e.repeating then e ∷ rest else rest

unfoldable pub numbers : List Entry → List ℕ
numbers [] = []
numbers (e ∷ es) = entry_number e.callback ++ numbers es

-- `executePendingEntries`
unfoldable pub execute_pending_entries : HTimerWheel → HTimerWheel
unfolding repeating numbers
execute_pending_entries w = record w {
  executed = w.executed ++ numbers w.entries_to_execute;
  repeating_entries_to_add = w.repeating_entries_to_add ++ repeating w.entries_to_execute;
  entries_to_execute = [];
}

-- `processBucket1`: the entries that are good; and `processUpperBucketSlots`: those that are
-- executed now, since their time is nearer than half of the lowest resolution, and the others
unfoldable pub good_entries : List Entry → List Entry
good_entries [] = []
good_entries (e ∷ es) = let rest = good_entries es in if good e then e ∷ rest else rest

unfoldable pub is_due : ℕ → ℕ → Entry → Bool
is_due now resolution e =
    let remaining = get_remaining_time e now in
    ltb remaining resolution && ltb remaining (resolution - remaining)

-- `CHECK(!!entry)` fails on an entry that is due and not good
unfoldable pub process_upper_bucket_slots : ℕ → ℕ → List Entry → Option (List Entry × List Entry)
unfolding is_due
process_upper_bucket_slots now resolution [] = some ([], [])
process_upper_bucket_slots now resolution (e ∷ es) =
    elim (process_upper_bucket_slots now resolution es) [
      | none ↦ none
      | some (execute, sub) ↦
          if is_due now resolution e
          then (if good e then some (e ∷ execute, sub) else none)
          else some (execute, if good e then e ∷ sub else sub)
    ]
