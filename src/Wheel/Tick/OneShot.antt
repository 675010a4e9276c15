-- ===== src/Wheel/Tick/OneShot.antt =====
-- A one-shot entry of a wheel of one level, from when it is added to the tick that runs it.
use native.Mathlib.Nat.{mod-lt}
use kclpp.Prelude.{
  ℕ, ◌+◌, ◌%◌, ◌*◌, ◌∙◌, ◌<◌, ◌≤◌, ◌≡◌, refl, ap, subst, length-replicate, replicate,
  get_elem?-replicate, true, false, some, List, [], ◌∷◌, ◌++◌, length, ◌==◌, arith, inl, inr,
  Bool-cases,
}
use kclpp.Wheel.Buffer.{create, get_at, set_at, get_at-set_at}
use kclpp.Wheel.Bucket.Arrival.{add_entry-set_at}
use kclpp.Wheel.Bucket
use kclpp.Wheel.Buffer.Ring.{get_at-set_at-other}
use kclpp.Wheel.Bucket.{
  new_bucket, get_remaining_time, time_capacity, set_added_time, Entry, Bucket, Slot, get_slot_idx,
  get_slot_at, advance_bucket,
}
use kclpp.Wheel.Levels.{
  create_new, make_levels, add_new_entry, add_entry, add_to_levels, HTimerWheel, WheelLevel,
  LevelSettings,
}
use kclpp.Wheel.Tick.{on_level_tick}
use kclpp.Wheel.Tick.Waiting.{
  wheel_of, Carries, Waits, run_ticks, tick-runs, run_ticks-Waits, length-set_at,
}

get_at-create : (n i : ℕ) → i < n → get_at (create {A = Slot} [] n) i ≡ some []
unfolding get_at create
get_at-create n i q =
    let nil : Slot = [] in
    let size' : length (replicate n nil) ≡ n = length-replicate n nil in
    get_elem?-replicate n ((0 + i) % length (replicate n nil)) nil
      (rw size' (mod-lt (0 + i) (omega (arith, q))))

abbrev new_level : LevelSettings → WheelLevel
new_level s = record {
  bucket = new_bucket true s.resolution s.slots;
  tick_counter = 0;
  skip_tick = 0;
}

create_new-one :
    (s : LevelSettings) → create_new (s ∷ []) ≡ some (wheel_of (s ∷ []) (new_level s) [])
unfolding create_new make_levels
create_new-one s = refl

new-Carries : (n idx : ℕ) (s : Slot) → idx < n → Carries (set_at (create [] n) idx s) n idx s
unfolding create
new-Carries n idx s p =
    let b = create [] n in
    let size' : length b.buff ≡ n = length-replicate n [] in
    record {
      size = length-set_at b idx s ∙ size';
      slots = λ i q. elim (Bool-cases (i == idx)) [
        | inl here ↦
            let at_idx : i ≡ idx = ground (arith, here) in
            rw here (
              ap (get_at (set_at b idx s)) at_idx ∙ get_at-set_at b idx s (omega (arith, size', p)))
        | inr other ↦ rw other (
            get_at-set_at-other b idx i s (omega (arith, size', p)) (omega (arith, size', q))
              (λ e. ground (arith, other, e))
            ∙ get_at-create n i q)
      ];
    }

remaining-new : (now : ℕ) (e : Entry) → get_remaining_time (set_added_time now e) now ≡ e.interval
unfolding get_remaining_time
remaining-new now e = ground arith

length-create : (n : ℕ) → length (create {A = Slot} [] n).buff ≡ n
unfolding create
length-create n = length-replicate n []

add_new_entry-one :
    (s : LevelSettings) (now : ℕ) (e : Entry) (l' : WheelLevel)
    → get_remaining_time (set_added_time now e) now < time_capacity (new_level s).bucket
    → Bucket.add_entry (new_level s).bucket now (set_added_time now e) ≡ some l'.bucket
    → (l'.tick_counter ≡ 0) × (l'.skip_tick ≡ 0)
    → add_new_entry now e (wheel_of (s ∷ []) (new_level s) []) ≡ some (wheel_of (s ∷ []) l' [])
unfolding add_new_entry add_entry add_to_levels
add_new_entry-one s now e l' cap put zero' = ground (arith, cap, put, zero')

-- A one-shot entry of a new wheel of one level, whose delay is below the level's capacity, is put into
-- the slot that its delay asks for. As many ticks as that slot's number run nothing, at whatever times
-- they come, and the next tick runs its callback, once. The level has a resolution and at least two
-- slots.
pub add_new_entry-run_ticks :
    (s : LevelSettings) (now later k : ℕ) (e : Entry) (nows : List ℕ)
    → 0 < s.resolution
    → 2 ≤ s.slots
    → e.interval < s.resolution * s.slots
    → e.callback ≡ some k
    → e.repeating ≡ false
    → get_slot_idx (new_bucket true s.resolution s.slots) e.interval ≡ some (length nows)
    → (w added waited fired : HTimerWheel) × (create_new (s ∷ []) ≡ some w)
      × (add_new_entry now e w ≡ some added)
      × (run_ticks nows added ≡ some waited)
      × (waited.executed ≡ [])
      × (on_level_tick 0 later waited ≡ some fired)
      × (fired.executed ≡ k ∷ [])
unfolding new_bucket
add_new_entry-run_ticks s now later k e nows p two cap c r asked =
    let l = new_level s in
    let e' = set_added_time now e in
    let left : get_remaining_time e' now ≡ e.interval = remaining-new now e in
    let (idx, slot, found, low, there, put) =
      add_entry-set_at l.bucket now e' p two (length-create s.slots) (rw left cap) in
    let l' = record l {
      bucket = record l.bucket { buffer = set_at l.bucket.buffer idx (slot ++ (e' ∷ [])) };
    } in
    let w = wheel_of (s ∷ []) l [] in
    let w' = wheel_of (s ∷ []) l' [] in
    let same : idx ≡ length nows = ground (arith, found, asked, left) in
    let empty : slot ≡ [] = ground (arith, there, get_at-create s.slots idx low) in
    let ring = new-Carries s.slots idx (slot ++ (e' ∷ [])) low in
    let waits : Waits l' s.slots (length nows) (e' ∷ []) = record {
      resolution = p;
      num_slots = refl;
      ring =
          subst (λ i. Carries l'.bucket.buffer s.slots i (e' ∷ [])) same
            (subst (λ t. Carries l'.bucket.buffer s.slots idx (t ++ (e' ∷ []))) empty ring);
    } in
    let (l'', ran, waits') =
      run_ticks-Waits (s ∷ []) nows l' [] s.slots (length nows) (e' ∷ []) (omega (arith, low, same))
        refl waits in
    let (l''', run) =
      tick-runs (s ∷ []) l'' [] later s.slots k e' (omega (arith, two)) c r waits' in
    (
      w,
      w',
      wheel_of (s ∷ []) l'' [],
      wheel_of (s ∷ []) l''' (k ∷ []),
      create_new-one s,
      add_new_entry-one s now e l' (rw left cap) put (refl, refl),
      ran,
      refl,
      run,
      refl,
    )
