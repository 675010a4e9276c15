-- ===== src/Wheel/Bucket.antt =====
-- include/kclpp/async/wheel/HTimerWheel.h, `Entry`, `Slot` and `Bucket`: one level's slots, and the
-- slot that a delay belongs in. An entry's callback is a number, none once it is moved from.
pub mod Slots
pub mod Arrival
use kclpp.Prelude.{
  ℕ, zero, suc, ◌+◌, ◌-◌, ◌*◌, ◌%◌, Bool, true, false, ◌&&◌, Option, none, some, List, [], ◌∷◌,
  ◌++◌, ltb, leb, ◌==◌, has_value, if◌then◌else◌,
}
use kclpp.Wheel.Buffer.{DynamicWheelBuffer, create, get_at, set_at, advance}

pub record Entry : Type 0 where
  pub callback : Option ℕ
  pub interval : ℕ
  pub added_time : ℕ
  pub repeating : Bool

abbrev pub good : Entry → Bool
good e = has_value e.callback

abbrev pub set_added_time : ℕ → Entry → Entry
set_added_time now e = record e { added_time = now }

unfoldable pub get_remaining_time : Entry → ℕ → ℕ
get_remaining_time e now =
    let end_time = e.added_time + e.interval in if leb end_time now then 0 else end_time - now

abbrev pub Slot : Type 0
Slot = List Entry

pub record Bucket : Type 0 where
  pub is_bottom : Bool
  pub resolution : ℕ
  pub num_slots : ℕ
  pub buffer : DynamicWheelBuffer Slot

unfoldable pub new_bucket : Bool → ℕ → ℕ → Bucket
new_bucket is_bottom resolution slots = record {
  is_bottom = is_bottom;
  resolution = resolution;
  num_slots = slots;
  buffer = create [] slots;
}

abbrev pub time_capacity : Bucket → ℕ
time_capacity b = b.resolution * b.num_slots

-- The loop of `getSlotIdx` from `idx` and `current`. It is left within one round more than the
-- resolution goes into `to_consider`.
count_slots : ℕ → ℕ → ℕ → ℕ → ℕ → ℕ → ℕ
count_slots zero resolution overflow to_consider idx current = idx
count_slots (suc fuel) resolution overflow to_consider idx current =
    let next = current + resolution in
    let rest = count_slots fuel resolution overflow to_consider (suc idx) next in
    if ltb 0 overflow
    then (if ltb next to_consider then rest else idx)
    else (if leb next to_consider then rest else idx)

abbrev pub rounded : Bool → ℕ → ℕ → ℕ → ℕ
rounded is_bottom resolution overflow idx =
    if is_bottom && (idx == 0 && ltb (resolution - overflow) overflow) then suc idx else idx

-- `getSlotIdx`; a delay beyond the capacity throws. The resolution is not 0.
unfoldable pub get_slot_idx : Bucket → ℕ → Option ℕ
unfolding count_slots
get_slot_idx b delay =
    if ltb (time_capacity b) delay
    then none
    else let overflow = delay % b.resolution in
      let counted = count_slots (suc delay) b.resolution overflow (delay - overflow) 0 0 in
      some
        (rounded b.is_bottom b.resolution overflow (if ltb delay b.resolution then 0 else counted))

-- `getSlotAt`; `CHECK(idx < getNumSlots())` fails at none
unfoldable pub get_slot_at : Bucket → ℕ → Option Slot
get_slot_at b idx = if ltb idx b.num_slots then get_at b.buffer idx else none

put_slot_at : Bucket → ℕ → Entry → Option Slot → Option Bucket
put_slot_at b idx e none = none
put_slot_at b idx e (some slot) =
    some (record b { buffer = set_at b.buffer idx (slot ++ (e ∷ [])) })

put_entry : Bucket → Entry → Option ℕ → Option Bucket
unfolding put_slot_at get_slot_at
put_entry b e none = none
put_entry b e (some idx) = put_slot_at b idx e (get_slot_at b idx)

-- `Bucket::addEntry`
unfoldable pub add_entry : Bucket → ℕ → Entry → Option Bucket
unfolding put_entry get_slot_idx
add_entry b now e = put_entry b e (get_slot_idx b (get_remaining_time e now))

unfoldable pub advance_bucket : Bucket → Bucket
advance_bucket b = record b { buffer = advance b.buffer }
