-- ===== src/Prelude/Dict.antt =====
-- `std::map` with string keys, as an association list in ascending order of the keys, and the map
-- helpers of include/kclpp/util/util.h.
pub mod Unique
use Prim.Native.Nat.{ℕ, ◌+◌}
use Prim.Native.String.{String}
use mathlib.Core.Bool.{Bool, false, ◌||◌}
use mathlib.Core.List.{List, [], ◌∷◌, map}
use mathlib.Core.Option.{Option, none, some}
use mathlib.Core.Path.{◌≡◌, refl}
use mathlib.Core.Logic.{◌≢◌, inl, inr}
use native.Mathlib.Omega.{arith}
use kclpp.Prelude.Tests.{
  if◌then◌else◌, str_eq, str_lt, str_eq_iff, str_eq_refl, str_eq_symm, Option-cases, has_value,
}

abbrev pub Dict {ℓ} : Type ℓ → Type ℓ
Dict V = List (String × V)

module _ {ℓ} {V : Type ℓ} where
  abbrev pub keys : Dict V → List String
  keys [] = []
  keys ((k, v) ∷ m) = k ∷ keys m

  abbrev pub values : Dict V → List V
  values [] = []
  values ((k, v) ∷ m) = v ∷ values m

  -- `util::findOption`; `find` of the map, with `end()` as none
  unfoldable pub find_option : Dict V → String → Option V
  find_option [] k = none
  find_option ((j, w) ∷ m) k = if str_eq j k then some w else find_option m k

  -- a new node goes before the first greater key
  unfoldable pub place : String → V → Dict V → Dict V
  place k v [] = (k, v) ∷ []
  place k v ((j, w) ∷ m) = if str_lt k j then (k, v) ∷ (j, w) ∷ m else (j, w) ∷ place k v m

  -- `std::map::insert` leaves an entry that is there alone
  unfoldable pub insert : String → V → Dict V → Dict V
  unfolding place find_option
  insert k v m = elim (find_option m k) [ some w ↦ m | none ↦ place k v m ]

  -- a write through the iterator of a key that is there
  unfoldable pub assign : String → V → Dict V → Dict V
  assign k v [] = []
  assign k v ((j, w) ∷ m) = if str_eq j k then (j, v) ∷ m else (j, w) ∷ assign k v m

  -- `util::insertOrUpdate`
  unfoldable pub insert_or_update : String → V → Dict V → Dict V
  unfolding place find_option assign
  insert_or_update k v m = elim (find_option m k) [ none ↦ place k v m | some w ↦ assign k v m ]

  -- `util::removeIfExists` without its answer; keys are unique
  unfoldable pub remove_if_exists : String → Dict V → Dict V
  remove_if_exists k [] = []
  remove_if_exists k ((j, w) ∷ m) =
      let rest = remove_if_exists k m in if str_eq j k then rest else (j, w) ∷ rest

  pub find_option-place :
      (k q : String) (v : V) (m : Dict V)
      → find_option m k ≡ none
      → find_option (place k v m) q ≡ (if str_eq k q then some v else find_option m q)
  unfolding find_option place
  find_option-place k q v [] h = refl
  find_option-place k q v ((j, w) ∷ m) h =
      ground (arith, str_eq_iff j k, str_eq_iff j q, str_eq_iff k q, find_option-place k q v m)

  pub find_option-assign :
      (k q : String) (v w : V) (m : Dict V)
      → find_option m k ≡ some w
      → find_option (assign k v m) q ≡ (if str_eq k q then some v else find_option m q)
  unfolding find_option assign
  find_option-assign k q v w [] h = ground arith
  find_option-assign k q v w ((j, x) ∷ m) h =
      ground (arith, str_eq_iff j k, str_eq_iff j q, str_eq_iff k q, find_option-assign k q v w m)

  pub find_option-insert :
      (k q : String) (v : V) (m : Dict V)
      → find_option (insert k v m) q ≡ (
          if str_eq k q
          then elim (find_option m k) [ some w ↦ some w | none ↦ some v ]
          else find_option m q)
  unfolding insert
  find_option-insert k q v m = elim (Option-cases (find_option m k)) [
    | inl e ↦ rw (e, insert) (find_option-place k q v m e)
    | inr (w, e) ↦ rw (e, insert) (ground (arith, str_eq_iff k q, e))
  ]

  pub find_option-insert_or_update :
      (k q : String) (v : V) (m : Dict V)
      → find_option (insert_or_update k v m) q ≡ (if str_eq k q then some v else find_option m q)
  unfolding insert_or_update
  find_option-insert_or_update k q v m = elim (Option-cases (find_option m k)) [
    | inl e ↦ rw (e, insert_or_update) (find_option-place k q v m e)
    | inr (w, e) ↦ rw (e, insert_or_update) (find_option-assign k q v w m e)
  ]

  pub find_option-remove_if_exists :
      (k q : String) (m : Dict V)
      → find_option (remove_if_exists k m) q ≡ (if str_eq k q then none else find_option m q)
  unfolding find_option remove_if_exists
  find_option-remove_if_exists k q [] = ground arith
  find_option-remove_if_exists k q ((j, w) ∷ m) =
      ground
        (arith, str_eq_iff j k, str_eq_iff j q, str_eq_iff k q, find_option-remove_if_exists k q m)

-- `util::keySet` gives `keys`; these are the set's `count` and `util::removeIfExists`.
unfoldable pub contains : String → List String → Bool
contains k [] = false
contains k (j ∷ js) = str_eq j k || contains k js

unfoldable pub remove_key : String → List String → List String
remove_key k [] = []
remove_key k (j ∷ js) = let rest = remove_key k js in if str_eq j k then rest else j ∷ rest

abbrev pub count_at : Option ℕ → ℕ
count_at none = 0
count_at (some n) = n

-- `util::insertOrIncrement` at counts
unfoldable pub insert_or_increment : String → ℕ → Dict ℕ → Dict ℕ
insert_or_increment k n m =
    let m' : Dict ℕ = elim (find_option m k) [ none ↦ insert k 0 m | some w ↦ m ] in
    assign k (count_at (find_option m' k) + n) m'

pub contains-remove_key :
    (k q : String) (js : List String)
    → contains q (remove_key k js) ≡ (if str_eq k q then false else contains q js)
unfolding contains remove_key
contains-remove_key k q [] = ground arith
contains-remove_key k q (j ∷ js) =
    ground (arith, str_eq_iff j k, str_eq_iff j q, str_eq_iff k q, contains-remove_key k q js)

pub contains-keys {ℓ} :
    {V : Type ℓ} (q : String) (m : Dict V) → contains q (keys m) ≡ has_value (find_option m q)
unfolding contains find_option
contains-keys q [] = refl
contains-keys q ((j, w) ∷ m) = ground (arith, contains-keys q m)

pub find_option-insert_or_increment :
    (k q : String) (n : ℕ) (m : Dict ℕ)
    → find_option (insert_or_increment k n m) q
      ≡ (if str_eq k q then some (count_at (find_option m k) + n) else find_option m q)
unfolding insert_or_increment
find_option-insert_or_increment k q n m = elim (Option-cases (find_option m k)) [
  | inl e ↦
      let here : find_option (insert k 0 m) k ≡ some 0 =
        rw (find_option-insert, str_eq_refl, e) refl in
      rw (e, insert_or_increment)
        (rw here (
          rw (find_option-assign k q _ 0 (insert k 0 m) here)
            (ground (arith, find_option-insert k q 0 m))))
  | inr (w, e) ↦ rw (e, insert_or_increment) (rw e (find_option-assign k q _ w m e))
]
