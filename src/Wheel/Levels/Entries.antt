-- ===== src/Wheel/Levels/Entries.antt =====
-- Where the entries of the wheel go.
use kclpp.Prelude.{
  not, Bool, if◌then◌else◌, ℕ, ◌+◌, ◌≡◌, inl, inr, refl, true, some, List, [], ◌∷◌, length, All,
  arith, Bool-cases,
}
use kclpp.Wheel.Bucket.{Entry, good}
use kclpp.Wheel.Levels.{is_due, process_upper_bucket_slots}

-- The entries that pass a test, in their order.
abbrev pub picked : (Entry → Bool) → List Entry → List Entry
picked f [] = []
picked f (e ∷ es) = let rest = picked f es in if f e then e ∷ rest else rest

-- Where all entries of a slot of an upper level are good, its tick splits them, in their order and
-- without losing one: those that are due are executed, and all others go to a lower level.
pub process_upper_bucket_slots-All :
    (now resolution : ℕ) (es : List Entry)
    → All (λ e. good e ≡ true) es
    → (process_upper_bucket_slots now resolution es
        ≡ some (picked (is_due now resolution) es, picked (λ e. not (is_due now resolution e)) es))
      × (length (picked (is_due now resolution) es)
            + length (picked (λ e. not (is_due now resolution e)) es)
          ≡ length es)
unfolding process_upper_bucket_slots
process_upper_bucket_slots-All now resolution [] h = (refl, refl)
process_upper_bucket_slots-All now resolution (e ∷ es) h =
    let (same, count) = process_upper_bucket_slots-All now resolution es h.1 in
    elim (Bool-cases (is_due now resolution e)) [
      | inl d ↦ (rw (same, d, h.0) refl, rw d (omega (arith, count)))
      | inr d ↦ (rw (same, d, h.0) refl, rw d (omega (arith, count)))
    ]
