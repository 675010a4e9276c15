-- ===== src/Prelude/Sums.antt =====
-- Sums over a list, for what is counted over objects.
use Prim.Native.Nat.{ℕ, zero, suc, ◌+◌, ◌≤◌}
use mathlib.Core.Path.{◌≡◌, refl, ap}
use mathlib.Core.Logic.{◌≢◌}
use mathlib.Core.List.{List, [], ◌∷◌, ◌++◌}
use mathlib.Core.Option.{some}
use native.Mathlib.Omega.{arith}
use kclpp.Prelude.Lists.{get_elem?, set}

module _ {ℓ} {A : Type ℓ} (f : A → ℕ) where
  abbrev pub sum_of : List A → ℕ
  sum_of [] = 0
  sum_of (x ∷ xs) = f x + sum_of xs

  pub sum_of-append : (xs ys : List A) → sum_of (xs ++ ys) ≡ sum_of xs + sum_of ys
  sum_of-append [] ys = omega arith
  sum_of-append (x ∷ xs) ys = omega (arith, sum_of-append xs ys)

  pub sum_of-set :
      (xs : List A) (i : ℕ) (x y : A)
      → get_elem? xs i ≡ some x
      → sum_of (set xs i y) + f x ≡ sum_of xs + f y
  sum_of-set [] i x y h = ground arith
  sum_of-set (z ∷ xs) zero x y h = ground arith
  sum_of-set (z ∷ xs) (suc i) x y h = omega (arith, sum_of-set xs i x y h)

  sum_of-one : (xs : List A) (i : ℕ) (x : A) → get_elem? xs i ≡ some x → f x ≤ sum_of xs
  sum_of-one [] i x p = ground arith
  sum_of-one (z ∷ xs) zero x p = ground (arith, p)
  sum_of-one (z ∷ xs) (suc i) x p = omega (arith, sum_of-one xs i x p)

  pub sum_of-two :
      (xs : List A) (i j : ℕ) (x y : A)
      → i ≢ j
      → get_elem? xs i ≡ some x
      → get_elem? xs j ≡ some y
      → f x + f y ≤ sum_of xs
  sum_of-two [] i j x y d p q = ground arith
  sum_of-two (z ∷ xs) zero zero x y d p q = absurd (d refl)
  sum_of-two (z ∷ xs) zero (suc j) x y d p q = ground (arith, p, sum_of-one xs j y q)
  sum_of-two (z ∷ xs) (suc i) zero x y d p q = ground (arith, q, sum_of-one xs i x p)
  sum_of-two (z ∷ xs) (suc i) (suc j) x y d p q =
      omega (arith, sum_of-two xs i j x y (λ e. d (ap suc e)) p q)
