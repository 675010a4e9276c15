-- ===== src/Wheel/Tick/Waiting.antt =====
-- A wheel of one level whose entries wait in one slot.
use mathlib.Core.List.{append-nil}
use kclpp.Prelude.{
  ℕ, suc, ◌∙◌, ◌<◌, ◌≡◌, refl, ap, sym, subst, length-set, false, Option, none, some, List, [], ◌∷◌,
  ◌++◌, length, ltb, ◌==◌, arith, inl, inr, Bool-cases, if◌then◌else◌,
}
use kclpp.Wheel.Buffer.{
  DynamicWheelBuffer, get_real_index, advance_by-get_at, get_at, set_at, advance, get_at-set_at,
}
use kclpp.Wheel.Buffer.Ring.{get_at-set_at-other, get_at-turn}
use kclpp.Wheel.Bucket.{Entry, Bucket, Slot, advance_bucket}
use kclpp.Wheel.Levels.{
  HTimerWheel, WheelLevel, LevelSettings, good_entries, execute_pending_entries, numbers, repeating,
}
use kclpp.Wheel.Tick.{
  take_slot, process_bucket1, on_level_tick_impl, on_level_tick, on_after_tick, add_sub_entries,
  re_add_repeating_entries, advance_buckets, run_level,
}
use kclpp.Wheel.Tick.Bottom.{take_slot-some}

abbrev pub wheel_of : List LevelSettings → WheelLevel → List ℕ → HTimerWheel
wheel_of settings l executed = record {
  level_settings = settings;
  levels = l ∷ [];
  repeating_entries_to_add = [];
  sub_entries_to_add = [];
  entries_to_execute = [];
  executed = executed;
}

tick-taken :
    (settings : List LevelSettings) (l : WheelLevel) (xs : List ℕ) (now : ℕ) (slot : Slot)
    (b : Bucket)
    → take_slot l.bucket ≡ some (slot, b)
    → repeating (good_entries slot) ≡ []
    → on_level_tick 0 now (wheel_of settings l xs)
      ≡ some (
          wheel_of settings
            (record l { bucket = advance_bucket b })
            (xs ++ numbers (good_entries slot)))
unfolding on_level_tick run_level on_level_tick_impl process_bucket1 execute_pending_entries
    on_after_tick add_sub_entries re_add_repeating_entries advance_buckets numbers repeating
tick-taken settings l xs now slot b e r =
    ground (arith, e, r, append-nil (xs ++ numbers (good_entries slot)), append-nil xs)

-- A ring of `n` slots that are all empty but slot `idx`.
pub record Carries (b : DynamicWheelBuffer Slot) (n idx : ℕ) (s : Slot) : Type 0 where
  pub size : length b.buff ≡ n
  pub slots : (i : ℕ) → i < n → get_at b i ≡ some (if i == idx then s else [])

-- a tick clears slot 0 and turns the ring
turned : DynamicWheelBuffer Slot → DynamicWheelBuffer Slot
turned b = advance (set_at b 0 [])

length-turned : (b : DynamicWheelBuffer Slot) → length (turned b).buff ≡ length b.buff
unfolding turned set_at advance
length-turned b = length-set b.buff (get_real_index b 0) []

pub length-set_at :
    (b : DynamicWheelBuffer Slot) (i : ℕ) (s : Slot) → length (set_at b i s).buff ≡ length b.buff
unfolding set_at
length-set_at b i s = length-set b.buff (get_real_index b i) s

turned-Carries :
    (b : DynamicWheelBuffer Slot) (n idx : ℕ) (s : Slot)
    → suc idx < n
    → Carries b n (suc idx) s
    → Carries (turned b) n idx s
unfolding turned
turned-Carries b n idx s p c =
    let b' = set_at b 0 [] in
    record {
      size = length-turned b ∙ c.size;
      slots = λ i q. elim (Bool-cases (ltb (suc i) n)) [
        | inl inside ↦
            let h : suc i < n = ground (arith, inside) in
            advance_by-get_at 1 i b'
            ∙ ap (get_at b') (omega arith)
            ∙ get_at-set_at-other b 0 (suc i) [] (omega (arith, c.size, h))
                (omega (arith, c.size, h)) (λ e. omega (arith, e))
            ∙ c.slots (suc i) h
            ∙ ground arith
        | inr last ↦
            let h : suc i ≡ n = ground (arith, last, q) in
            let top : (i == idx) ≡ false = ground (arith, h, p) in
            advance_by-get_at 1 i b'
            ∙ ap (get_at b') (omega (arith, h, length-set_at b 0 [], c.size))
            ∙ get_at-turn b'
            ∙ get_at-set_at b 0 [] (omega (arith, c.size, h))
            ∙ rw top refl
      ];
    }

-- ticks at the given times
unfoldable pub run_ticks : List ℕ → HTimerWheel → Option HTimerWheel
unfolding on_level_tick
run_ticks [] w = some w
run_ticks (now ∷ nows) w = elim (on_level_tick 0 now w) [
  | none ↦ none
  | some w' ↦ run_ticks nows w'
]

-- a level whose entries all wait in one slot
pub record Waits (l : WheelLevel) (n idx : ℕ) (s : Slot) : Type 0 where
  pub resolution : 0 < l.bucket.resolution
  pub num_slots : l.bucket.num_slots ≡ n
  pub ring : Carries l.bucket.buffer n idx s

tick-Waits :
    (settings : List LevelSettings) (l : WheelLevel) (xs : List ℕ) (now n idx : ℕ) (s : Slot)
    → suc idx < n
    → Waits l n (suc idx) s
    → (l' : WheelLevel) × (on_level_tick 0 now (wheel_of settings l xs)
        ≡ some (wheel_of settings l' xs))
      × Waits l' n idx s
unfolding advance_bucket turned numbers good_entries repeating
tick-Waits settings l xs now n idx s p h =
    let (slot, there, taken) =
      take_slot-some l.bucket h.resolution (omega (arith, h.num_slots, p))
        (h.ring.size ∙ sym h.num_slots) in
    let empty : slot ≡ [] = ground (arith, there, h.ring.slots 0 (omega (arith, p))) in
    let l' = record l { bucket = record l.bucket { buffer = turned l.bucket.buffer } } in
    let b : Bucket = record l.bucket { buffer = set_at l.bucket.buffer 0 [] } in
    let quiet : repeating (good_entries slot) ≡ [] = ap (λ t. repeating (good_entries t)) empty in
    let same : xs ++ numbers (good_entries slot) ≡ xs =
      ap (λ t. xs ++ numbers (good_entries t)) empty ∙ append-nil xs in
    (
      l',
      tick-taken settings l xs now slot b taken quiet
          ∙ ap (λ ys. some (wheel_of settings l' ys)) same,
      record {
        resolution = h.resolution;
        num_slots = h.num_slots;
        ring = turned-Carries l.bucket.buffer n idx s p h.ring;
      },
    )

pub tick-runs :
    (settings : List LevelSettings) (l : WheelLevel) (xs : List ℕ) (now n k : ℕ) (e : Entry)
    → 0 < n
    → e.callback ≡ some k
    → e.repeating ≡ false
    → Waits l n 0 (e ∷ [])
    → (l' : WheelLevel) × (on_level_tick 0 now (wheel_of settings l xs)
        ≡ some (wheel_of settings l' (xs ++ (k ∷ []))))
unfolding advance_bucket numbers good_entries repeating
tick-runs settings l xs now n k e p c r h =
    let (slot, there, taken) =
      take_slot-some l.bucket h.resolution (omega (arith, h.num_slots, p))
        (h.ring.size ∙ sym h.num_slots) in
    let one : slot ≡ e ∷ [] = ground (arith, there, h.ring.slots 0 p) in
    let b : Bucket = record l.bucket { buffer = set_at l.bucket.buffer 0 [] } in
    let quiet : repeating (good_entries slot) ≡ [] =
      ap (λ t. repeating (good_entries t)) one ∙ ground (arith, c, r) in
    let runs : xs ++ numbers (good_entries slot) ≡ xs ++ (k ∷ []) =
      ap (λ t. xs ++ numbers (good_entries t)) one ∙ ground (arith, c) in
    let l' = record l { bucket = advance_bucket b } in
    (
      l',
      tick-taken settings l xs now slot b taken quiet
          ∙ ap (λ ys. some (wheel_of settings l' ys)) runs,
    )

pub run_ticks-Waits :
    (settings : List LevelSettings) (nows : List ℕ) (l : WheelLevel) (xs : List ℕ) (n idx : ℕ)
    (s : Slot)
    → idx < n
    → length nows ≡ idx
    → Waits l n idx s
    → (l' : WheelLevel) × (run_ticks nows (wheel_of settings l xs) ≡ some (wheel_of settings l' xs))
      × Waits l' n 0 s
unfolding run_ticks
run_ticks-Waits settings [] l xs n idx s p e h = (l, refl, subst (λ i. Waits l n i s) (sym e) h)
run_ticks-Waits settings (now ∷ nows) l xs n idx s p e h =
    let h' : Waits l n (suc (length nows)) s = subst (λ i. Waits l n i s) (sym e) h in
    let (l', t, w) = tick-Waits settings l xs now n (length nows) s (omega (arith, p, e)) h' in
    let (l'', r, v) =
      run_ticks-Waits settings nows l' xs n (length nows) s (omega (arith, p, e)) refl w in
    (l'', ground (arith, t, r), v)
