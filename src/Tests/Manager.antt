-- ===== src/Tests/Manager.antt =====
-- The lease table at one lease that `w2` holds, and reading leases from it.
use kclpp.Prelude.{◌≡◌, refl, true, false, some, arith, str_eq, str_lt}
use kclpp.Prelude.Dict.{find_option, insert, insert_or_update}
use kclpp.Outcome.{success, failure}
use kclpp.Util.{safe_str_to_ull, print_ull, DeserializationError}
use kclpp.Util.Decimal.{safe_str_to_ull-print_ull}
use kclpp.Leases.Sequence.{ExtendedSequenceNumber}
use kclpp.Leases.Lease.{copy_shared_with_incremented_counter}
use kclpp.Leases.Codec.{DynamoDict, from_dynamo_dict, to_dynamo_dict}
use kclpp.Leases.Codec.RoundTrip.{from_dynamo_dict-to_dynamo_dict, stored, IsStorable}
use kclpp.Leases.Dynamo.{item_or_key}
use kclpp.Leases.Helpers.{default_update, make_cas_expectation, make_update_values}
use kclpp.Leases.Manager.{
  internal_update_lease, renew_lease, take_lease, evict_lease, RenewLeaseResult, TakeLeaseResult,
}
use kclpp.Leases.Manager.Unowned.{evict_lease-from_dynamo_dict}
use kclpp.Tests.World.{world, world-IsDynamo, lease_a, items, differ}

code : Unit {0}
unfolding str_eq str_lt insert insert_or_update to_dynamo_dict make_cas_expectation
    make_update_values print_ull internal_update_lease renew_lease take_lease evict_lease
    find_option copy_shared_with_incremented_counter
code = tt

abbrev pub renewed_items : world.Store
renewed_items = (internal_update_lease world "leases" lease_a default_update items).1

renewed :
    internal_update_lease world "leases" lease_a default_update items ≡ (success tt, renewed_items)
unfolding code
renewed = refl

abbrev pub renew_result : RenewLeaseResult
renew_result = record { renewed = true; lease = record lease_a { lease_counter = some 8 } }

pub renew_run : renew_lease world "leases" lease_a items ≡ (success renew_result, renewed_items)
unfolding code
renew_run = refl

abbrev pub taken_items : world.Store
taken_items = (take_lease world "leases" lease_a "w1" items).1

abbrev pub take_result : TakeLeaseResult
take_result = record { taken = true; lease = lease_a }

pub take_run : take_lease world "leases" lease_a "w1" items ≡ (success take_result, taken_items)
unfolding code
take_run = refl

abbrev evicted_items : world.Store
evicted_items = (evict_lease world "leases" lease_a items).1

abbrev evicted_item : DynamoDict
evicted_item = item_or_key "shard-0" (find_option evicted_items "shard-0")

evict_run : evict_lease world "leases" lease_a items ≡ (success true, evicted_items)
unfolding code
evict_run = refl

evicted_here : find_option evicted_items "shard-0" ≡ some evicted_item
unfolding code
evicted_here = refl

evict_lease-from_dynamo_dict_example :
    (e : DeserializationError) × ((from_dynamo_dict evicted_item false).0 ≡ failure e)
evict_lease-from_dynamo_dict_example =
    evict_lease-from_dynamo_dict world world-IsDynamo "leases" lease_a items evicted_items
      evicted_item false evict_run evicted_here

pub lease_a-IsStorable : IsStorable lease_a
unfolding str_eq
lease_a-IsStorable = record {
  named = differ "shard-0" "" refl;
  counter_fits = omega arith;
  switches_fit = omega arith;
  last_fits = omega arith;
}

from_dynamo_dict-to_dynamo_dict_example :
    from_dynamo_dict (to_dynamo_dict lease_a) false ≡ (success (stored lease_a), false)
unfolding str_eq
from_dynamo_dict-to_dynamo_dict_example =
    from_dynamo_dict-to_dynamo_dict lease_a "w2" lease_a-IsStorable refl (differ "w2" "" refl)

safe_str_to_ull-print_ull_example : safe_str_to_ull true (print_ull 41) ≡ (success 41, true)
unfolding print_ull
safe_str_to_ull-print_ull_example = safe_str_to_ull-print_ull true 41 (omega arith)

abbrev checkpoint : ExtendedSequenceNumber
checkpoint = record { sequence_number = "49"; sub_sequence_number = some "1" }
