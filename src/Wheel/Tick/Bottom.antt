-- ===== src/Wheel/Tick/Bottom.antt =====
-- What a tick of the lowest level runs.
use kclpp.Prelude.{
  ℕ, ◌*◌, ◌∙◌, ◌+◌, ◌<◌, ◌≡◌, refl, true, some, List, [], ◌∷◌, ◌++◌, length, get_elem?, set, ltb,
  arith,
}
use kclpp.Wheel.Buffer.{get_at, set_at, get_at-set_at, get_at-some}
use kclpp.Wheel.Bucket.{Bucket, Slot, get_slot_idx, get_slot_at}
use kclpp.Wheel.Bucket.Slots.{get_slot_idx-closed}
use kclpp.Wheel.Levels.{
  HTimerWheel, WheelLevel, good_entries, execute_pending_entries, numbers, repeating,
}
use kclpp.Wheel.Tick.{take_slot, process_bucket1, on_level_tick_impl}

get_slot_idx-zero : (b : Bucket) → 0 < b.resolution → get_slot_idx b 0 ≡ some 0
get_slot_idx-zero b p =
    let at_zero = get_slot_idx-closed b 0 0 p (omega arith) in
    let none_of : 0 * b.resolution + 0 ≡ 0 = omega arith in (rw none_of at at_zero) ∙ ground arith

first-set :
    (ls : List WheelLevel) (l l' : WheelLevel)
    → get_elem? ls 0 ≡ some l
    → get_elem? (set ls 0 l') 0 ≡ some l'
first-set [] l l' h = ground arith
first-set (x ∷ xs) l l' h = refl

-- The slot of delay 0 of a bucket whose ring has its slots, and the bucket that is left.
pub take_slot-some :
    (b : Bucket)
    → 0 < b.resolution
    → 0 < b.num_slots
    → length b.buffer.buff ≡ b.num_slots
    → (slot : Slot) × (get_at b.buffer 0 ≡ some slot)
      × (take_slot b ≡ some (slot, record b { buffer = set_at b.buffer 0 [] }))
unfolding take_slot get_slot_at
take_slot-some b p n ring =
    let (slot, there) = get_at-some b.buffer 0 (omega arith) in
    let first : get_slot_idx b 0 ≡ some 0 = get_slot_idx-zero b p in
    let inside : ltb 0 b.num_slots ≡ true = ground arith in
    (slot, there, rw (first, take_slot) (rw (inside, there) refl))

-- A tick of the lowest level runs what was pending and then the good entries of the slot of delay
-- 0, in their order, each once; it leaves that slot empty and nothing pending, and keeps what
-- repeats for the next round. The resolution is not 0, and the ring has the bucket's slots, at
-- least one.
pub on_level_tick_impl-bottom :
    (w : HTimerWheel) (l : WheelLevel) (now : ℕ)
    → get_elem? w.levels 0 ≡ some l
    → 0 < l.bucket.resolution
    → 0 < l.bucket.num_slots
    → length l.bucket.buffer.buff ≡ l.bucket.num_slots
    → (slot : Slot) × (w' : HTimerWheel) × (get_at l.bucket.buffer 0 ≡ some slot)
      × (on_level_tick_impl 0 now w ≡ some w')
      × (w'.executed ≡ w.executed ++ numbers (w.entries_to_execute ++ good_entries slot))
      × (w'.entries_to_execute ≡ [])
      × (w'.repeating_entries_to_add
          ≡ w.repeating_entries_to_add ++ repeating (w.entries_to_execute ++ good_entries slot))
      × (l' : WheelLevel) × (get_elem? w'.levels 0 ≡ some l')
      × (get_at l'.bucket.buffer 0 ≡ some [])
unfolding on_level_tick_impl process_bucket1 execute_pending_entries
on_level_tick_impl-bottom w l now here p n ring =
    let (slot, there, taken) = take_slot-some l.bucket p n ring in
    let cleared = record (l.bucket) { buffer = set_at l.bucket.buffer 0 [] } in
    let l' = record l { bucket = cleared } in
    let w' = execute_pending_entries (record w {
      levels = set w.levels 0 l';
      entries_to_execute = w.entries_to_execute ++ good_entries slot;
    }) in
    (
      slot,
      w',
      there,
      rw (here, on_level_tick_impl) (rw taken refl),
      refl,
      refl,
      refl,
      l',
      first-set w.levels l l' here,
      get_at-set_at l.bucket.buffer 0 [] (omega arith),
    )
