-- ===== src/Wheel/Fixed.antt =====
-- include/kclpp/async/wheel/WheelBuffer.h: the ring whose number of slots is fixed when it is compiled, and
-- the ring of `Buffer`, which does the same.
use kclpp.Prelude.{
  ℕ, ◌+◌, ◌%◌, ◌≡◌, refl, ap, ◌∙◌, Option, List, [], ◌∷◌, length, get_elem?, set, replicate,
  length-set, length-replicate,
}
use kclpp.Wheel.Buffer
use kclpp.Wheel.Buffer.{DynamicWheelBuffer}

pub record WheelBuffer (A : Type 0) : Type 0 where
  pub buff : List A
  pub current_index : ℕ

-- `n` is the template's `NItems`. An access out of the array gives none, or changes nothing.
module _ {A : Type 0} (n : ℕ) where
  abbrev pub fixed_real_index : WheelBuffer A → ℕ → ℕ
  fixed_real_index b idx = (b.current_index + idx) % n

  unfoldable pub fixed_advance : WheelBuffer A → WheelBuffer A
  fixed_advance b = record b { current_index = (b.current_index + 1) % n }

  unfoldable pub fixed_get_at : WheelBuffer A → ℕ → Option A
  fixed_get_at b idx = get_elem? b.buff (fixed_real_index b idx)

  unfoldable pub fixed_set_at : WheelBuffer A → ℕ → A → WheelBuffer A
  fixed_set_at b idx a = record b { buff = set b.buff (fixed_real_index b idx) a }

pub data RingOp (A : Type 0) : Type 0 where
  advancing : RingOp A
  putting : ℕ → A → RingOp A

module _ {A : Type 0} (n : ℕ) where
  abbrev pub run_fixed : List (RingOp A) → WheelBuffer A → WheelBuffer A
  run_fixed [] b = b
  run_fixed (advancing ∷ ops) b = run_fixed ops (fixed_advance n b)
  run_fixed (putting idx a ∷ ops) b = run_fixed ops (fixed_set_at n b idx a)

  abbrev pub run_dynamic : List (RingOp A) → DynamicWheelBuffer A → DynamicWheelBuffer A
  run_dynamic [] b = b
  run_dynamic (advancing ∷ ops) b = run_dynamic ops (Buffer.advance b)
  run_dynamic (putting idx a ∷ ops) b = run_dynamic ops (Buffer.set_at b idx a)

  -- the ring of `Buffer` with the same slots
  abbrev dynamic : WheelBuffer A → DynamicWheelBuffer A
  dynamic b = record { buff = b.buff; current_index = b.current_index }

  dynamic-fixed_advance :
      (b : WheelBuffer A)
      → length b.buff ≡ n
      → dynamic (fixed_advance n b) ≡ Buffer.advance (dynamic b)
  unfolding fixed_advance Buffer.advance
  dynamic-fixed_advance b h = rw h refl

  dynamic-fixed_set_at :
      (b : WheelBuffer A) (i : ℕ) (a : A)
      → length b.buff ≡ n
      → dynamic (fixed_set_at n b i a) ≡ Buffer.set_at (dynamic b) i a
  unfolding fixed_set_at Buffer.set_at
  dynamic-fixed_set_at b i a h = rw h refl

  run_fixed-get_at :
      (ops : List (RingOp A)) (b : WheelBuffer A) (idx : ℕ)
      → length b.buff ≡ n
      → fixed_get_at n (run_fixed ops b) idx ≡ Buffer.get_at (run_dynamic ops (dynamic b)) idx
  unfolding fixed_get_at Buffer.get_at fixed_advance fixed_set_at
  run_fixed-get_at [] b idx h = rw h refl
  run_fixed-get_at (advancing ∷ ops) b idx h =
      run_fixed-get_at ops (fixed_advance n b) idx h
      ∙ ap (λ d. Buffer.get_at (run_dynamic ops d) idx) (dynamic-fixed_advance b h)
  run_fixed-get_at (putting i a ∷ ops) b idx h =
      run_fixed-get_at ops (fixed_set_at n b i a) idx (length-set b.buff _ a ∙ h)
      ∙ ap (λ d. Buffer.get_at (run_dynamic ops d) idx) (dynamic-fixed_set_at b i a h)

  -- A ring of fixed size and one of the same size that was made when the program ran have the same slots
  -- after the same advances and writes.
  pub fixed-dynamic :
      (default : A) (ops : List (RingOp A)) (idx : ℕ)
      → fixed_get_at n
          (run_fixed ops (record { buff = replicate n default; current_index = 0 }))
          idx
        ≡ Buffer.get_at (run_dynamic ops (Buffer.create default n)) idx
  unfolding Buffer.create
  fixed-dynamic default ops idx =
      run_fixed-get_at ops (record { buff = replicate n default; current_index = 0 }) idx
        (length-replicate n default)
