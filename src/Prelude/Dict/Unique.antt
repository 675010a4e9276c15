-- ===== src/Prelude/Dict/Unique.antt =====
-- The operations on maps keep the keys unique.
use Prim.Native.Nat.{ℕ}
use Prim.Native.String.{String}
use mathlib.Core.List.{[], ◌∷◌}
use mathlib.Core.Option.{none}
use mathlib.Core.Path.{◌≡◌, refl}
use mathlib.Core.Logic.{inl, inr}
use native.Mathlib.Omega.{arith}
use kclpp.Prelude.Tests.{str_eq_iff, Option-cases}
use kclpp.Prelude.Dict.{
  Dict, find_option, place, insert, assign, insert_or_increment, insert_or_update, remove_if_exists,
  find_option-remove_if_exists, find_option-place,
}

-- No key stands twice, as in every `std::map`.
abbrev pub HasUniqueKeys {ℓ} : {V : Type ℓ} → Dict V → Type ℓ
HasUniqueKeys [] = Unit
HasUniqueKeys ((k, v) ∷ m) = (find_option m k ≡ none) × HasUniqueKeys m

module _ {ℓ} {V : Type ℓ} where
  place-HasUniqueKeys :
      (k : String) (v : V) (m : Dict V)
      → find_option m k ≡ none
      → HasUniqueKeys m
      → HasUniqueKeys (place k v m)
  unfolding place find_option
  place-HasUniqueKeys k v [] h u = (refl, tt)
  place-HasUniqueKeys k v ((j, w) ∷ m) h u =
      ground (
        arith,
        str_eq_iff j k,
        str_eq_iff k j,
        place-HasUniqueKeys k v m,
        find_option-place k j v m,
      )

  find_option-assign-none :
      (k q : String) (v : V) (m : Dict V)
      → find_option m q ≡ none
      → find_option (assign k v m) q ≡ none
  unfolding find_option assign
  find_option-assign-none k q v [] h = refl
  find_option-assign-none k q v ((j, w) ∷ m) h = ground (arith, find_option-assign-none k q v m)

  assign-HasUniqueKeys :
      (k : String) (v : V) (m : Dict V) → HasUniqueKeys m → HasUniqueKeys (assign k v m)
  unfolding assign find_option
  assign-HasUniqueKeys k v [] u = tt
  assign-HasUniqueKeys k v ((j, w) ∷ m) u =
      ground (arith, assign-HasUniqueKeys k v m, find_option-assign-none k j v m)

  pub insert-HasUniqueKeys :
      (k : String) (v : V) (m : Dict V) → HasUniqueKeys m → HasUniqueKeys (insert k v m)
  unfolding insert
  insert-HasUniqueKeys k v m u = elim (Option-cases (find_option m k)) [
    | inl e ↦ rw (e, insert) (place-HasUniqueKeys k v m e u)
    | inr (w, e) ↦ rw (e, insert) u
  ]

pub insert_or_increment-HasUniqueKeys :
    (k : String) (n : ℕ) (m : Dict ℕ) → HasUniqueKeys m → HasUniqueKeys (insert_or_increment k n m)
unfolding insert_or_increment
insert_or_increment-HasUniqueKeys k n m u = elim (Option-cases (find_option m k)) [
  | inl e ↦
      rw (e, insert_or_increment)
        (assign-HasUniqueKeys k _ (insert k 0 m) (insert-HasUniqueKeys k 0 m u))
  | inr (w, e) ↦ rw (e, insert_or_increment) (assign-HasUniqueKeys k _ m u)
]

module _ {ℓ} {V : Type ℓ} where
  pub insert_or_update-HasUniqueKeys :
      (k : String) (v : V) (m : Dict V) → HasUniqueKeys m → HasUniqueKeys (insert_or_update k v m)
  unfolding insert_or_update
  insert_or_update-HasUniqueKeys k v m u = elim (Option-cases (find_option m k)) [
    | inl e ↦ rw (e, insert_or_update) (place-HasUniqueKeys k v m e u)
    | inr (w, e) ↦ rw (e, insert_or_update) (assign-HasUniqueKeys k v m u)
  ]

  pub remove_if_exists-HasUniqueKeys :
      (k : String) (m : Dict V) → HasUniqueKeys m → HasUniqueKeys (remove_if_exists k m)
  unfolding remove_if_exists
  remove_if_exists-HasUniqueKeys k [] u = tt
  remove_if_exists-HasUniqueKeys k ((j, w) ∷ m) u =
      ground (arith, remove_if_exists-HasUniqueKeys k m, find_option-remove_if_exists k j m)
