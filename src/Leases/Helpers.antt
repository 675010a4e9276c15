-- ===== src/Leases/Helpers.antt =====
-- src/kclpp/leases/dynamo_helpers.cpp: the condition and the updates of a write to a lease.
use kclpp.Prelude.{
  ℕ, ◌+◌, ◌%◌, String, Bool, true, false, not, Option, none, some, [], str_eq, if◌then◌else◌,
}
use kclpp.Prelude.Dict.{insert}
use kclpp.Util.{print_ull, ull_mod}
use kclpp.Leases.Lease.{Lease}
use kclpp.Leases.Codec.{text, number, count_or_zero}
use kclpp.Leases.Dynamo.{
  ExpectedAttributeValue, with_value, not_exists, put_value, delete_value, ExpectedMap, UpdateMap,
}

-- `makeLeaseKey`; the one attribute of a key is `leaseKey`
abbrev pub make_lease_key : Lease → String
make_lease_key l = l.lease_key

abbrev pub expect_owner : Option String → ExpectedAttributeValue
expect_owner none = not_exists
expect_owner (some o) = with_value (text o)

abbrev pub expect_counter : Option ℕ → ExpectedAttributeValue
expect_counter none = not_exists
expect_counter (some n) = with_value (number (print_ull n))

unfoldable pub make_cas_expectation : Lease → ExpectedMap
make_cas_expectation l =
    insert "leaseCounter" (expect_counter l.lease_counter)
      (insert "leaseOwner" (expect_owner l.lease_owner) [])

pub record UpdateLeaseParams : Type 0 where
  pub new_owner : Option String
  pub set_owner_to_null : Bool

abbrev pub default_update : UpdateLeaseParams
default_update = record { new_owner = none; set_owner_to_null = false }

-- `!oldOwner.hasValue() || oldOwner.value() != newOwner.value()`
abbrev pub owner_changes : Option String → String → Bool
owner_changes none new = true
owner_changes (some old) new = not (str_eq old new)

abbrev pub next_count : Option ℕ → ℕ
next_count n = (count_or_zero n + 1) % ull_mod

drop_owner : Option String → UpdateMap → UpdateMap
drop_owner none us = us
drop_owner (some old) us = insert "leaseOwner" delete_value us

change_owner : Lease → Option String → UpdateMap → UpdateMap
change_owner l none us = us
change_owner l (some new) us =
    if owner_changes l.lease_owner new
    then insert "ownerSwitchesSinceCheckpoint"
        (put_value (number (print_ull (next_count l.owner_switches_since_checkpoint))))
        (insert "leaseOwner" (put_value (text new)) us)
    else us

unfoldable pub make_update_values : Lease → UpdateLeaseParams → UpdateMap
unfolding drop_owner change_owner
make_update_values l params =
    let owner =
      if params.set_owner_to_null
      then drop_owner l.lease_owner []
      else change_owner l params.new_owner [] in
    insert "leaseCounter" (put_value (number (print_ull (next_count l.lease_counter)))) owner
