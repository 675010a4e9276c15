-- ===== src/Leases/Manager.antt =====
-- include/kclpp/leases/LeaseManagerIf.h and src/kclpp/leases/LeaseManager.cpp: the lease table. A
-- method sends one request and hands what comes back to its callback, so it is modelled by a
-- function from the state of the service to the outcome that the callback gets, and the new state.
pub mod Updates
pub mod Renewal
pub mod Tables
pub mod Unowned
use kclpp.Prelude.{
  ℕ, ◌≡◌, String, Bool, true, false, Option, none, some, List, [], ◌∷◌, str_eq, if◌then◌else◌,
  is_empty,
}
use kclpp.Prelude.Dict.{insert}
use kclpp.Outcome.{Outcome, success, failure}
use kclpp.Util.{DeserializationError}
use kclpp.Leases.Lease.{Lease, copy_shared_with_incremented_counter}
use kclpp.Leases.Codec.{DynamoDict, text, from_dynamo_dict, to_dynamo_dict}
use kclpp.Leases.Dynamo.{
  Dynamo, AwsError, conditional_check_failed, other_error, not_exists, put_value, UpdateMap,
}
use kclpp.Leases.Helpers.{
  make_lease_key, make_cas_expectation, make_update_values, UpdateLeaseParams, default_update,
}

-- `InvalidState` of `createShared`
pub data InvalidState : Type 0 where
  empty_table_name null_dynamo_client null_async_context : InvalidState

pub record RenewLeaseResult : Type 0 where
  pub renewed : Bool
  pub lease : Lease

pub record TakeLeaseResult : Type 0 where
  pub taken : Bool
  pub lease : Lease

pub record UpdateLeaseResult : Type 0 where
  pub updated : Bool
  pub lease : Lease

pub record CreateLeaseIfNotExistsResult : Type 0 where
  pub created : Bool
  pub lease : Option Lease

-- `createShared`, on the table name and whether the client and the context are there
unfoldable pub create_shared : String → Bool → Bool → Outcome String InvalidState
create_shared table_name has_client has_context =
    if str_eq table_name ""
    then failure empty_table_name
    else if has_client
    then (if has_context then success table_name else failure null_async_context)
    else failure null_dynamo_client

-- the outcome that a callback gets from that of the request
abbrev pub with_result : {S A B : Type 0} → B → Outcome A AwsError × S → Outcome B AwsError × S
with_result b (success a, st) = (success b, st)
with_result b (failure e, st) = (failure e, st)

-- the items that can be read; the others are logged and left out
deserialized : Bool → List DynamoDict → List Lease × Bool
deserialized errno [] = ([], errno)
deserialized errno (d ∷ ds) =
    let (r, errno') = from_dynamo_dict d errno in
    let (rest, errno'') = deserialized errno' ds in
    (elim r [ success l ↦ l ∷ rest | failure e ↦ rest ], errno'')

on_scan : Bool → Outcome (List DynamoDict) AwsError → Outcome (List Lease) AwsError × Bool
unfolding deserialized
on_scan errno (failure e) = (failure e, errno)
on_scan errno (success items) =
    let (leases, errno') = deserialized errno items in (success leases, errno')

-- `CHECK(parsedLease.IsSuccess())`: the process ends on an item that cannot be read
pub data GetLeaseOutcome : Type 0 where
  got : Outcome Lease AwsError → GetLeaseOutcome
  check_failed : DeserializationError → GetLeaseOutcome

unfoldable pub on_get_item : Bool → Outcome DynamoDict AwsError → GetLeaseOutcome × Bool
on_get_item errno (failure e) = (got (failure e), errno)
on_get_item errno (success d) =
    let (r, errno') = from_dynamo_dict d errno in
    (elim r [ success l ↦ got (success l) | failure e ↦ check_failed e ], errno')

on_put_item :
    {S : Type 0}
    → Lease
    → Outcome (Unit {0}) AwsError × S
    → Outcome CreateLeaseIfNotExistsResult AwsError × S
on_put_item l (success _, st) = (success (record { created = true; lease = some l }), st)
on_put_item l (failure conditional_check_failed, st) =
    (success (record { created = false; lease = none }), st)
on_put_item l (failure (other_error m), st) = (failure (other_error m), st)

on_list : Outcome (List Lease) AwsError × Bool → Outcome Bool AwsError × Bool
on_list (failure e, errno) = (failure e, errno)
on_list (success leases, errno) = (success (is_empty leases), errno)

insert_checkpoint : String → Option String → UpdateMap → UpdateMap
insert_checkpoint name none us = us
insert_checkpoint name (some c) us = insert name (put_value (text c)) us

module _ (d : Dynamo) (table_name : String) where
  -- one page of at most 100 items
  unfoldable pub list_leases : Bool → d.Store → Outcome (List Lease) AwsError × Bool
  unfolding on_scan
  list_leases errno st = on_scan errno (d.scan table_name 100 st)

  unfoldable pub is_lease_table_empty : Bool → d.Store → Outcome Bool AwsError × Bool
  unfolding list_leases on_list
  is_lease_table_empty errno st = on_list (list_leases errno st)

  unfoldable pub get_lease : String → Bool → d.Store → GetLeaseOutcome × Bool
  unfolding on_get_item
  get_lease key errno st = on_get_item errno (d.get_item table_name key st)

  unfoldable pub create_lease_if_not_exists :
      Lease → d.Store → Outcome CreateLeaseIfNotExistsResult AwsError × d.Store
  unfolding on_put_item
  create_lease_if_not_exists l st =
      on_put_item l (d.put_item table_name (to_dynamo_dict l) (insert "leaseKey" not_exists []) st)

  unfoldable pub delete_lease_cas : Lease → d.Store → Outcome Bool AwsError × d.Store
  delete_lease_cas l st =
      with_result true (d.delete_item table_name (make_lease_key l) (make_cas_expectation l) st)

  unfoldable pub delete_lease_unconditionally : Lease → d.Store → Outcome Bool AwsError × d.Store
  delete_lease_unconditionally l st =
      with_result true (d.delete_item table_name (make_lease_key l) [] st)

  unfoldable pub internal_update_lease :
      Lease → UpdateLeaseParams → d.Store → Outcome (Unit {0}) AwsError × d.Store
  internal_update_lease l params st =
      d.update_item table_name (make_lease_key l) (make_cas_expectation l)
        (make_update_values l params) st

  unfoldable pub renew_lease : Lease → d.Store → Outcome RenewLeaseResult AwsError × d.Store
  unfolding internal_update_lease
  renew_lease l st =
      with_result (record { renewed = true; lease = copy_shared_with_incremented_counter l })
        (internal_update_lease l default_update st)

  unfoldable pub evict_lease : Lease → d.Store → Outcome Bool AwsError × d.Store
  unfolding internal_update_lease
  evict_lease l st =
      with_result true
        (internal_update_lease l (record default_update { set_owner_to_null = true }) st)

  -- the lease that is handed on is the one that was passed in, with its old owner and counter
  unfoldable pub take_lease : Lease → String → d.Store → Outcome TakeLeaseResult AwsError × d.Store
  unfolding internal_update_lease
  take_lease l new_owner st =
      with_result (record { taken = true; lease = l })
        (internal_update_lease l (record default_update { new_owner = some new_owner }) st)

  -- the request of `updateLease` sets no table name
  unfoldable pub update_lease : Lease → d.Store → Outcome UpdateLeaseResult AwsError × d.Store
  unfolding insert_checkpoint
  update_lease l st =
      let us = make_update_values l default_update in
      let us' = insert_checkpoint "checkpoint" l.checkpoint_id us in
      let us'' = insert_checkpoint "checkpointSubSequenceNumber" l.sub_checkpoint_id us' in
      with_result (record { updated = true; lease = l })
        (d.update_item "" (make_lease_key l) (make_cas_expectation l) us'' st)
