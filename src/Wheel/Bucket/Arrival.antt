-- ===== src/Wheel/Bucket/Arrival.antt =====
-- Where an entry goes that is added to a bucket, and when its turn comes.
use kclpp.Prelude.{
  ℕ, ◌+◌, ◌<◌, ◌≤◌, ◌≡◌, refl, ap, ◌∙◌, true, some, [], ◌∷◌, ◌++◌, length, arith, ltb,
}
use kclpp.Wheel.Buffer.{get_at, set_at, advance_by, advance_by-get_at, get_at-set_at, get_at-some}
use kclpp.Wheel.Bucket.{
  Entry, Bucket, Slot, get_remaining_time, time_capacity, get_slot_at, get_slot_idx, put_entry,
  put_slot_at, add_entry,
}
use kclpp.Wheel.Bucket.Slots.{get_slot_idx-bounded}

-- The slot that an entry is put into, and the bucket with it.
pub add_entry-set_at :
    (b : Bucket) (now : ℕ) (e : Entry)
    → 0 < b.resolution
    → 2 ≤ b.num_slots
    → length b.buffer.buff ≡ b.num_slots
    → get_remaining_time e now < time_capacity b
    → (idx : ℕ) × (slot : Slot) × (get_slot_idx b (get_remaining_time e now) ≡ some idx)
      × (idx < b.num_slots)
      × (get_at b.buffer idx ≡ some slot)
      × (add_entry b now e ≡ some (record b { buffer = set_at b.buffer idx (slot ++ (e ∷ [])) }))
unfolding add_entry put_entry put_slot_at get_slot_at
add_entry-set_at b now e p two ring w =
    let (idx, found, low) = get_slot_idx-bounded b (get_remaining_time e now) p two w in
    let inside : ltb idx b.num_slots ≡ true = ground arith in
    let (slot, there) = get_at-some b.buffer idx (omega arith) in
    (idx, slot, found, low, there, rw (found, put_entry) (rw (inside, there) refl))

-- An entry whose remaining time is below the capacity of a bucket is added to it, and comes to
-- the slot of delay 0 after as many advances as its slot's number. The resolution is not 0, and
-- the ring has as many slots as the bucket, at least two.
pub add_entry-arrives :
    (b : Bucket) (now : ℕ) (e : Entry)
    → 0 < b.resolution
    → 2 ≤ b.num_slots
    → length b.buffer.buff ≡ b.num_slots
    → get_remaining_time e now < time_capacity b
    → (idx : ℕ) × (slot : Slot) × (b' : Bucket) × (get_slot_idx b (get_remaining_time e now)
        ≡ some idx)
      × (get_at b.buffer idx ≡ some slot)
      × (add_entry b now e ≡ some b')
      × (get_at (advance_by idx b'.buffer) 0 ≡ some (slot ++ (e ∷ [])))
add_entry-arrives b now e p two ring w =
    let (idx, slot, found, low, there, added) = add_entry-set_at b now e p two ring w in
    let exact : idx + 0 ≡ idx = omega arith in
    (
      idx,
      slot,
      record b { buffer = set_at b.buffer idx (slot ++ (e ∷ [])) },
      found,
      there,
      added,
      advance_by-get_at idx 0 _ ∙ ap (get_at _) exact ∙ get_at-set_at b.buffer idx _ (omega arith),
    )
