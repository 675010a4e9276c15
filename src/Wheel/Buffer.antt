-- ===== src/Wheel/Buffer.antt =====
-- include/kclpp/async/wheel/DynamicWheelBuffer.h: a ring of slots with a moving origin. `at` of the
-- vector fails out of bounds; the read is then none, and the write leaves the ring as it is.
pub mod Ring
use native.Mathlib.Nat.{mod-add-mod, mod-lt}
use kclpp.Prelude.{
  ℕ, zero, suc, ◌+◌, ◌%◌, ◌<◌, ◌≡◌, refl, ap, ◌∙◌, Option, some, [], ◌∷◌, length-set, List, length,
  get_elem?, set, replicate, arith,
}

pub record DynamicWheelBuffer (A : Type 0) : Type 0 where
  pub buff : List A
  pub current_index : ℕ

-- `create`, from a default element
unfoldable pub create : {A : Type 0} → A → ℕ → DynamicWheelBuffer A
create a n = record { buff = replicate n a; current_index = 0 }

abbrev pub get_real_index : {A : Type 0} → DynamicWheelBuffer A → ℕ → ℕ
get_real_index b idx = (b.current_index + idx) % length b.buff

unfoldable pub advance : {A : Type 0} → DynamicWheelBuffer A → DynamicWheelBuffer A
advance b = record b { current_index = (b.current_index + 1) % length b.buff }

unfoldable pub get_at : {A : Type 0} → DynamicWheelBuffer A → ℕ → Option A
get_at b idx = get_elem? b.buff (get_real_index b idx)

unfoldable pub set_at : {A : Type 0} → DynamicWheelBuffer A → ℕ → A → DynamicWheelBuffer A
set_at b idx a = record b { buff = set b.buff (get_real_index b idx) a }

abbrev pub advance_by : {A : Type 0} → ℕ → DynamicWheelBuffer A → DynamicWheelBuffer A
advance_by zero b = b
advance_by (suc n) b = advance_by n (advance b)

-- After `n` advances, slot `i` is the one that was slot `n + i`, round the ring.
pub advance_by-get_at :
    {A : Type 0} (n i : ℕ) (b : DynamicWheelBuffer A) → get_at (advance_by n b) i ≡ get_at b (n + i)
unfolding get_at advance
advance_by-get_at zero i b = ap (λ j. get_elem? b.buff (j % length b.buff)) (omega arith)
advance_by-get_at (suc n) i b =
    let moved = mod-add-mod (b.current_index + 1) (length b.buff) (n + i) in
    advance_by-get_at n i (advance b)
    ∙ ap (get_elem? b.buff) (moved ∙ ap (λ j. j % length b.buff) (omega arith))

get_elem?-set :
    {A : Type 0} (xs : List A) (i : ℕ) (a : A) → i < length xs → get_elem? (set xs i a) i ≡ some a
get_elem?-set [] i a h = absurd (omega arith)
get_elem?-set (x ∷ xs) zero a h = refl
get_elem?-set (x ∷ xs) (suc i) a h = get_elem?-set xs i a (omega arith)

-- What is put into a slot is found there.
pub get_at-set_at :
    {A : Type 0} (b : DynamicWheelBuffer A) (idx : ℕ) (a : A)
    → 0 < length b.buff
    → get_at (set_at b idx a) idx ≡ some a
unfolding get_at set_at
get_at-set_at b idx a h =
    ap (λ n. get_elem? (set b.buff (get_real_index b idx) a) ((b.current_index + idx) % n))
      (length-set b.buff (get_real_index b idx) a)
    ∙ get_elem?-set b.buff (get_real_index b idx) a (mod-lt (b.current_index + idx) h)

get_elem?-some :
    {A : Type 0} (xs : List A) (i : ℕ) → i < length xs → (a : A) × (get_elem? xs i ≡ some a)
get_elem?-some [] i h = absurd (omega arith)
get_elem?-some (x ∷ xs) zero h = (x, refl)
get_elem?-some (x ∷ xs) (suc i) h = get_elem?-some xs i (omega arith)

-- Every slot of a ring that is not empty is there.
pub get_at-some :
    {A : Type 0} (b : DynamicWheelBuffer A) (idx : ℕ)
    → 0 < length b.buff
    → (a : A) × (get_at b idx ≡ some a)
unfolding get_at
get_at-some b idx h = get_elem?-some b.buff _ (mod-lt (b.current_index + idx) h)
