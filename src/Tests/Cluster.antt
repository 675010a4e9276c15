-- ===== src/Tests/Cluster.antt =====
-- Two workers that start after each other over the same table.
use kclpp.Prelude.{◌≡◌, ◌≢◌, refl, true, false, none, some, [], ◌∷◌, arith, str_eq, str_lt}
use kclpp.Prelude.Dict.{find_option, insert, insert_or_update, assign}
use kclpp.Outcome.{success, failure}
use kclpp.Util.{print_ull, safe_str_to_ull}
use kclpp.Leases.Lease.{Lease, copy_shared_with_incremented_counter}
use kclpp.Leases.Codec.{from_dynamo_dict, to_dynamo_dict}
use kclpp.Leases.Dynamo.{AwsError, meets, apply_updates, item_or_key}
use kclpp.Leases.Helpers.{make_cas_expectation, make_update_values, default_update}
use kclpp.Leases.Manager.{RenewLeaseResult, internal_update_lease, list_leases}
use kclpp.Leases.Manager
use kclpp.Leases.Renewer.{
  LeaseRenewerState, renew_lease, on_init_renewal, safe_insert_lease, initialize,
  add_leases_to_renew,
}
use kclpp.Leases.Renewer.Listed.{IsAnswering, initialize-takes_listed}
use kclpp.Leases.Cluster.{System, Reaches, starts, here, further, worker_becomes}
use kclpp.Leases.Cluster.Writes.{HasCounter}
use kclpp.Leases.Cluster.Exclusive.{renewals_exclusive}
use kclpp.AsyncGroup.{post_and_elect}
use kclpp.Tests.World.{world, world-IsDynamo, lease_a, lease_b, items, differ}
use kclpp.Tests.Manager.{renewed_items, renew_result}

code : Unit {0}
unfolding str_eq str_lt insert insert_or_update to_dynamo_dict make_cas_expectation
    make_update_values print_ull internal_update_lease Manager.renew_lease renew_lease find_option
    copy_shared_with_incremented_counter on_init_renewal safe_insert_lease
code = tt

started_code : Unit {0}
unfolding code initialize list_leases from_dynamo_dict safe_str_to_ull post_and_elect assign
    add_leases_to_renew
started_code = tt

abbrev fresh : LeaseRenewerState
fresh = record { lease_duration = 50; owned_leases = [] }

abbrev pub two_workers : System world.Store
two_workers = record { store = items; workers = fresh ∷ fresh ∷ [] }

-- The lease after one renewal and after two.
abbrev once : Lease
once = renew_result.lease

abbrev twice : Lease
twice = record lease_a { lease_counter = some 9 }

abbrev holding : Lease → LeaseRenewerState
holding l = record fresh { owned_leases = ("shard-0", l) ∷ [] }

abbrev again_items : world.Store
again_items = (internal_update_lease world "leases" once default_update renewed_items).1

first_start :
    renew_lease world "leases" true 0 lease_a fresh items
    ≡ (success renew_result, (holding once, renewed_items))
unfolding code
first_start = refl

second_start :
    renew_lease world "leases" true 0 once fresh renewed_items
    ≡ (success (record { renewed = true; lease = twice }), (holding twice, again_items))
unfolding code
second_start = refl

kept :
    (l : Lease)
    → l.lease_key ≡ "shard-0"
    → on_init_renewal (success (record { renewed = true; lease = l })) (holding l) ≡ holding l
unfolding code assign
kept l k = rw k refl

abbrev one_started : System world.Store
one_started =
    worker_becomes 1 (on_init_renewal (success renew_result) (holding once)) renewed_items
      two_workers

abbrev both_started : System world.Store
both_started =
    worker_becomes 0
      (on_init_renewal (success (record { renewed = true; lease = twice })) (holding twice))
      again_items one_started

abbrev both : Reaches world "leases" two_workers both_started
both =
    further (further here (starts 1 0 lease_a fresh _ _ _ refl first_start))
      (starts 0 0 once fresh _ _ _ refl second_start)

abbrev worker_0 : LeaseRenewerState
worker_0 = on_init_renewal (success (record { renewed = true; lease = twice })) (holding twice)

abbrev worker_1 : LeaseRenewerState
worker_1 = on_init_renewal (success renew_result) (holding once)

copies :
    (find_option worker_0.owned_leases "shard-0" ≡ some twice)
    × (find_option worker_1.owned_leases "shard-0" ≡ some once)
unfolding code assign
copies = (refl, refl)

counted : HasCounter world world-IsDynamo "leases" "shard-0" items 7
unfolding code
counted = refl

abbrev thrice_items : world.Store
thrice_items = (internal_update_lease world "leases" twice default_update again_items).1

renewed_twice : Manager.renew_lease world "leases" twice again_items ≡ (
  success (record { renewed = true; lease = record twice { lease_counter = some 10 } }),
  thrice_items,
)
unfolding code
renewed_twice = refl

renewals_exclusive_example :
    (e : AwsError) × (Manager.renew_lease world "leases" once again_items
      ≡ (failure e, again_items))
renewals_exclusive_example =
    renewals_exclusive world world-IsDynamo "leases" "shard-0" 7 0 1 both worker_0 worker_1 twice
      once _ thrice_items counted (omega arith) (refl, (refl, tt)) (omega arith) refl refl copies.0
      copies.1 renewed_twice

listed_two : (list_leases world "leases" false items).0 ≡ success (lease_a ∷ lease_b ∷ [])
unfolding started_code
listed_two = refl

answers : IsAnswering world "leases"
unfolding code
answers k es us st h =
    (insert_or_update k (apply_updates us (item_or_key k (find_option st k))) st, rw h refl)

shard_1_differs : str_eq "shard-1" "shard-0" ≡ false
unfolding code
shard_1_differs = refl

shard_1_apart : lease_b.lease_key ≢ "shard-0"
shard_1_apart = differ "shard-1" "shard-0" shard_1_differs

meets-lease_a : meets (make_cas_expectation lease_a) (to_dynamo_dict lease_a) ≡ true
unfolding code
meets-lease_a = refl

initialize-takes_listed_example :
    (let (replies, (s', st')) = initialize world "leases" false fresh items in
      let (o, (t', st'')) = renew_lease world "leases" false 120 lease_a (holding lease_a) st' in
      (find_option s'.owned_leases "shard-0" ≡ some (copy_shared_with_incremented_counter lease_a))
      × (find_option t'.owned_leases "shard-0" ≡ none)
      × (st'' ≡ st'))
unfolding code
initialize-takes_listed_example =
    initialize-takes_listed world world-IsDynamo "leases" "shard-0" answers 7 lease_a []
      (lease_b ∷ []) false fresh (holding lease_a) items false 120 refl refl counted meets-lease_a
      tt (shard_1_apart, tt) listed_two (omega arith) refl
