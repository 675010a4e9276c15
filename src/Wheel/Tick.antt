-- ===== src/Wheel/Tick.antt =====
-- include/kclpp/async/wheel/HTimerWheel.h, `onLevelTick` and what it calls: one tick of a level.
-- The clock is read once, at `now`.
pub mod Bottom
pub mod Waiting
pub mod OneShot
use kclpp.Prelude.{
  ℕ, zero, suc, ◌+◌, ◌-◌, Option, none, some, ◌>>=◌, List, [], ◌∷◌, ◌++◌, length, get_elem?, set,
  leb, ◌==◌, if◌then◌else◌,
}
use kclpp.Wheel.Buffer.{set_at}
use kclpp.Wheel.Bucket.{Entry, Bucket, Slot, get_slot_idx, get_slot_at, advance_bucket}
use kclpp.Wheel.Levels.{
  HTimerWheel, WheelLevel, add_entry, add_new_entry, execute_pending_entries, good_entries,
  process_upper_bucket_slots,
}

-- the entries of the slot of delay 0, and the bucket with that slot cleared
unfoldable pub take_slot : Bucket → Option (Slot × Bucket)
take_slot b = do
  idx ← get_slot_idx b 0
  slot ← get_slot_at b idx
  some (slot, record b { buffer = set_at b.buffer idx [] })

abbrev with_level : HTimerWheel → ℕ → WheelLevel → HTimerWheel
with_level w idx l = record w { levels = set w.levels idx l }

unfoldable pub process_bucket1 : HTimerWheel → Option HTimerWheel
unfolding take_slot
process_bucket1 w = do
  l ← get_elem? w.levels 0
  (slot, b) ← take_slot l.bucket
  some (record (with_level w 0 (record l { bucket = b })) {
    entries_to_execute = w.entries_to_execute ++ good_entries slot;
  })

unfoldable pub process_bucket_n : ℕ → ℕ → HTimerWheel → Option HTimerWheel
unfolding take_slot
process_bucket_n idx now w = do
  l ← get_elem? w.levels idx
  (slot, b) ← take_slot l.bucket
  lowest ← get_elem? w.level_settings 0
  (execute, sub) ← process_upper_bucket_slots now lowest.resolution slot
  some (record (with_level w idx (record l { bucket = b })) {
    entries_to_execute = w.entries_to_execute ++ execute;
    sub_entries_to_add = w.sub_entries_to_add ++ sub;
  })

unfoldable pub on_level_tick_impl : ℕ → ℕ → HTimerWheel → Option HTimerWheel
unfolding process_bucket1 process_bucket_n
on_level_tick_impl zero now w = do w' ← process_bucket1 w; some (execute_pending_entries w')
on_level_tick_impl (suc idx) now w = do
  w' ← process_bucket_n (suc idx) now w
  on_level_tick_impl idx now (execute_pending_entries w')

add_entries : ℕ → List Entry → HTimerWheel → Option HTimerWheel
add_entries now [] w = some w
add_entries now (e ∷ es) w = do w' ← add_entry now e w; add_entries now es w'

add_new_entries : ℕ → List Entry → HTimerWheel → Option HTimerWheel
add_new_entries now [] w = some w
add_new_entries now (e ∷ es) w = do w' ← add_new_entry now e w; add_new_entries now es w'

unfoldable pub add_sub_entries : ℕ → HTimerWheel → Option HTimerWheel
unfolding add_entries
add_sub_entries now w = do
  w' ← add_entries now w.sub_entries_to_add w
  some (record w' { sub_entries_to_add = [] })

unfoldable pub re_add_repeating_entries : ℕ → HTimerWheel → Option HTimerWheel
unfolding add_new_entries
re_add_repeating_entries now w = do
  w' ← add_new_entries now w.repeating_entries_to_add w
  some (record w' { repeating_entries_to_add = [] })

unfoldable pub on_after_tick : ℕ → HTimerWheel → Option HTimerWheel
unfolding add_sub_entries re_add_repeating_entries
on_after_tick now w = do
  w' ← add_sub_entries now (execute_pending_entries w)
  w'' ← re_add_repeating_entries now w'
  some (execute_pending_entries w'')

advance_levels : ℕ → List WheelLevel → List WheelLevel
advance_levels n [] = []
advance_levels zero (l ∷ ls) = record l { bucket = advance_bucket l.bucket } ∷ ls
advance_levels (suc n) (l ∷ ls) =
    record l { bucket = advance_bucket l.bucket } ∷ advance_levels n ls

-- `advanceBuckets`; an index beyond the levels does not occur
unfoldable pub advance_buckets : ℕ → HTimerWheel → HTimerWheel
unfolding advance_levels
advance_buckets idx w = record w { levels = advance_levels idx w.levels }

run_level : ℕ → ℕ → HTimerWheel → Option HTimerWheel
unfolding on_level_tick_impl on_after_tick advance_buckets
run_level idx now w = do
  w' ← on_level_tick_impl idx now w
  on_after_tick now (advance_buckets idx w')

-- `onLevelTick`, of a wheel that has levels
unfoldable pub on_level_tick : ℕ → ℕ → HTimerWheel → Option HTimerWheel
unfolding run_level
on_level_tick idx now w =
    let run = run_level idx now w in
    if idx == length w.levels - 1 then run else elim (get_elem? w.levels idx) [
      | none ↦ none
      | some l ↦
          let counter = l.tick_counter + 1 in
          if counter == l.skip_tick
          then some (with_level w idx (record l { tick_counter = 0 }))
          else run_level idx now (with_level w idx (record l { tick_counter = counter }))
    ]
