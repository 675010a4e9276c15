-- ===== src/Leases/Manager/Updates.antt =====
-- The condition and the updates of a write to a lease, seen through the attributes of an item.
use kclpp.Prelude.{
  ℕ, ◌≡◌, ◌↔◌, ◌⊎◌, inl, inr, refl, String, true, Option, none, some, List, [], ◌∷◌, str_eq, str_lt,
  str_eq_iff, arith, Option-cases, Bool-cases,
}
use kclpp.Prelude.Dict.{
  find_option, insert, find_option-insert_or_update, find_option-remove_if_exists,
}
use kclpp.Util.{print_ull}
use kclpp.Leases.Lease.{Lease}
use kclpp.Leases.Codec.{AttributeValue, DynamoDict, text, number}
use kclpp.Leases.Dynamo.{
  AttributeValueUpdate, put_value, delete_value, meets, meets_one, apply_updates, list_eq,
  with_value, not_exists,
}
use kclpp.Leases.Helpers.{
  make_cas_expectation, make_update_values, UpdateLeaseParams, default_update, expect_owner,
  expect_counter, next_count, owner_changes,
}

pub list_eq_sound : (xs ys : List ℕ) → list_eq xs ys ≡ true → xs ≡ ys
list_eq_sound [] [] h = refl
list_eq_sound [] (y ∷ ys) h = ground arith
list_eq_sound (x ∷ xs) [] h = ground arith
list_eq_sound (x ∷ xs) (y ∷ ys) h = ground (arith, list_eq_sound xs ys)

pub list_eq_refl : (xs : List ℕ) → list_eq xs xs ≡ true
list_eq_refl [] = refl
list_eq_refl (x ∷ xs) = ground (arith, list_eq_refl xs)

-- The condition of a write to a lease, on the two attributes that it looks at.
pub meets-make_cas_expectation :
    (l : Lease) (it : DynamoDict)
    → (meets (make_cas_expectation l) it ≡ true) ↔ (
        (meets_one (expect_owner l.lease_owner) (find_option it "leaseOwner") ≡ true)
        × (meets_one (expect_counter l.lease_counter) (find_option it "leaseCounter") ≡ true))
unfolding make_cas_expectation insert str_lt str_eq
meets-make_cas_expectation l it = ground arith

abbrev pub counter_update : Lease → String × AttributeValueUpdate
counter_update l = ("leaseCounter", put_value (number (print_ull (next_count l.lease_counter))))

abbrev pub switches_update : Lease → String × AttributeValueUpdate
switches_update l = (
  "ownerSwitchesSinceCheckpoint",
  put_value (number (print_ull (next_count l.owner_switches_since_checkpoint))),
)

-- The three forms of the updates.
pub make_update_values-cases :
    (l : Lease) (p : UpdateLeaseParams)
    → (make_update_values l p ≡ counter_update l ∷ [])
      ⊎ ((make_update_values l p ≡ counter_update l ∷ ("leaseOwner", delete_value) ∷ [])
          ⊎ ((new : String) × (make_update_values l p
                ≡ counter_update l
                  ∷ ("leaseOwner", put_value (text new))
                  ∷ switches_update l
                  ∷ [])))
unfolding make_update_values insert str_lt str_eq
make_update_values-cases l p = ground arith

-- The lease counter of an item after the updates of any write.
pub counter-make_update_values :
    (l : Lease) (p : UpdateLeaseParams) (it : DynamoDict)
    → find_option (apply_updates (make_update_values l p) it) "leaseCounter"
      ≡ some (number (print_ull (next_count l.lease_counter)))
unfolding str_eq
counter-make_update_values l p it = elim (make_update_values-cases l p) [
  | inl e ↦ rw e (rw find_option-insert_or_update refl)
  | inr (inl e) ↦ rw e (rw (find_option-remove_if_exists, find_option-insert_or_update) refl)
  | inr (inr (new, e)) ↦ rw e (simp find_option-insert_or_update)
]

pub owner-default_update :
    (l : Lease) (it : DynamoDict)
    → find_option (apply_updates (make_update_values l default_update) it) "leaseOwner"
      ≡ find_option it "leaseOwner"
unfolding make_update_values insert str_lt str_eq
owner-default_update l it = rw find_option-insert_or_update refl

meets-not_exists : (o : Option AttributeValue) → meets_one not_exists o ≡ true → o ≡ none
meets-not_exists none h = refl
meets-not_exists (some v) h = ground arith

pub meets-text :
    (s : String) (o : Option AttributeValue)
    → meets_one (with_value (text s)) o ≡ true
    → o ≡ some (text s)
meets-text s none h = ground arith
meets-text s (some (text t)) h = ground (arith, str_eq_iff s t)
meets-text s (some (number n)) h = ground arith

-- After the updates of an eviction there is no owner, if the condition held.
pub owner-evict :
    (l : Lease) (it : DynamoDict)
    → meets_one (expect_owner l.lease_owner) (find_option it "leaseOwner") ≡ true
    → find_option
        (apply_updates
          (make_update_values l (record default_update { set_owner_to_null = true }))
          it)
        "leaseOwner"
      ≡ none
unfolding make_update_values insert str_lt str_eq
owner-evict l it h = elim (Option-cases l.lease_owner) [
  | inl e ↦ rw e (rw find_option-insert_or_update (meets-not_exists _ (rw e at h)))
  | inr (o, e) ↦ rw e (rw find_option-remove_if_exists refl)
]

-- After the updates of a take the new worker owns the item, if the condition held.
pub owner-take :
    (l : Lease) (w : String) (it : DynamoDict)
    → meets_one (expect_owner l.lease_owner) (find_option it "leaseOwner") ≡ true
    → find_option
        (apply_updates (make_update_values l (record default_update { new_owner = some w })) it)
        "leaseOwner"
      ≡ some (text w)
unfolding make_update_values insert str_lt str_eq
owner-take l w it h = elim (Option-cases l.lease_owner) [
  | inl e ↦ rw e (simp find_option-insert_or_update)
  | inr (o, e) ↦ elim (Bool-cases (owner_changes (some o) w)) [
    | inl moves ↦ rw (e, moves) (simp find_option-insert_or_update)
    | inr stays ↦
        let held = meets-text o (find_option it "leaseOwner") (rw e at h) in
        let same : o ≡ w = ground (arith, str_eq_iff o w) in
        rw (e, stays) (rw (find_option-insert_or_update, held, same) refl)
  ]
]
