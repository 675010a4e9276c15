-- ===== src/Wheel/Buffer/Ring.antt =====
-- Reads and writes of different slots of a ring, and of a whole turn.
use native.Mathlib.Nat.{mod-lt, mod-eq_of_lt, mod-eq-sub-mod, mod-add-mod, add-mod_right}
use kclpp.Prelude.{
  ℕ, ◌+◌, ◌-◌, ◌%◌, ◌∙◌, ◌<◌, ◌≤◌, ◌≡◌, ◌≢◌, ◌⊎◌, ap, sym, length-set, get_elem?-set_ne, length,
  get_elem?, set, ltb, arith, inl, inr, Bool-cases,
}
use kclpp.Wheel.Buffer.{DynamicWheelBuffer, get_real_index, get_at, set_at}

-- A place in a ring goes round at most once.
mod-wrap :
    (c i n : ℕ)
    → i < n
    → ((c % n + i < n) × ((c + i) % n ≡ c % n + i))
      ⊎ ((n ≤ c % n + i) × ((c + i) % n ≡ c % n + i - n))
mod-wrap c i n p =
    let small : c % n < n = mod-lt c (omega arith) in
    elim (Bool-cases (ltb (c % n + i) n)) [
      | inl fits ↦
          let h : c % n + i < n = ground (arith, fits) in
          inl (h, sym (mod-add-mod c n i) ∙ mod-eq_of_lt h)
      | inr wraps ↦
          let h : n ≤ c % n + i = ground (arith, wraps) in
          let rest : c % n + i - n < n = omega (arith, small, h) in
          inr (h, sym (mod-add-mod c n i) ∙ mod-eq-sub-mod h ∙ mod-eq_of_lt rest)
    ]

-- Two slots of a ring are at two places.
pub mod-injective : (c i j n : ℕ) → i < n → j < n → i ≢ j → (c + i) % n ≢ (c + j) % n
mod-injective c i j n p q d e =
    let small : c % n < n = mod-lt c (omega arith) in
    ground (arith, mod-wrap c i n p, mod-wrap c j n q, d, e, small)

pub get_at-set_at-other :
    {A : Type 0} (b : DynamicWheelBuffer A) (i j : ℕ) (a : A)
    → i < length b.buff
    → j < length b.buff
    → i ≢ j
    → get_at (set_at b i a) j ≡ get_at b j
unfolding get_at set_at
get_at-set_at-other b i j a p q d =
    ap (λ n. get_elem? (set b.buff (get_real_index b i) a) ((b.current_index + j) % n))
      (length-set b.buff (get_real_index b i) a)
    ∙ get_elem?-set_ne b.buff (get_real_index b i) (get_real_index b j) a
        (mod-injective b.current_index i j (length b.buff) p q d)

-- after a whole turn comes slot 0 again
pub get_at-turn : {A : Type 0} (b : DynamicWheelBuffer A) → get_at b (length b.buff) ≡ get_at b 0
unfolding get_at
get_at-turn b =
    ap (get_elem? b.buff)
      (add-mod_right b.current_index (length b.buff) ∙ ap (λ c. c % length b.buff) (omega arith))
