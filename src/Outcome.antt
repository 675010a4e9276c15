-- ===== src/Outcome.antt =====
-- `Aws::Utils::Outcome`: a result or an error (include/kclpp/Outcome.h passes it on).
use kclpp.Prelude.{◌≡◌, refl, ◌⊎◌, inl, inr, Bool, true, false}

pub data Outcome {ℓ κ} (A : Type ℓ) (E : Type κ) : Type (ℓ ⊔ κ) where
  success : A → Outcome A E
  failure : E → Outcome A E

abbrev pub is_success {ℓ κ} : {A : Type ℓ} {E : Type κ} → Outcome A E → Bool
is_success (success a) = true
is_success (failure e) = false

pub Outcome-cases {ℓ κ} :
    {A : Type ℓ} {E : Type κ} (r : Outcome A E)
    → ((a : A) × (r ≡ success a)) ⊎ ((e : E) × (r ≡ failure e))
Outcome-cases (success a) = inl (a, refl)
Outcome-cases (failure e) = inr (e, refl)
