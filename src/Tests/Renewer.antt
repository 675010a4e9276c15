-- ===== src/Tests/Renewer.antt =====
-- The renewer of a worker that holds one lease.
use kclpp.Prelude.{◌≡◌, refl, true, false, none, [], ◌∷◌, arith, str_eq, str_lt, if◌then◌else◌}
use kclpp.Prelude.Dict.{find_option, insert}
use kclpp.Outcome.{success, failure}
use kclpp.Leases.Dynamo.{AwsError}
use kclpp.Leases.Renewer.Rivals.{take_lease-renew_lease_exclusive}
use kclpp.Util.{print_ull, safe_str_to_ull}
use kclpp.Leases.Codec.{from_dynamo_dict, to_dynamo_dict}
use kclpp.Leases.Manager.{list_leases, take_lease}
use kclpp.Leases.Renewer.{LeaseRenewerState, renew_lease, renew_leases}
use kclpp.Leases.Renewer.Held.{renewed_of, renew_lease-find_option, take_lease-renew_lease_drops}
use kclpp.Leases.Renewer.Replies.{renew_leases-once}
use kclpp.Tests.World.{world, world-IsDynamo, lease_a, lease_b, items}
use kclpp.Tests.Manager.{renewed_items, renew_result, renew_run, take_result, taken_items, take_run}

abbrev pub renewer : LeaseRenewerState
renewer = record { lease_duration = 50; owned_leases = ("shard-0", lease_a) ∷ [] }

renew_lease-find_option_example :
    (let (outcome, (s', st')) = renew_lease world "leases" false 120 lease_a renewer items in
      find_option s'.owned_leases "shard-0" ≡ (
        if str_eq "shard-0" "shard-0"
        then renewed_of outcome
        else find_option renewer.owned_leases "shard-0"))
renew_lease-find_option_example =
    renew_lease-find_option world "leases" false 120 lease_a renewer items "shard-0"

take_lease-renew_lease_drops_example :
    (let (outcome, (s', st'')) =
        renew_lease world "leases" true 120 take_result.lease renewer taken_items in
      (find_option s'.owned_leases "shard-0" ≡ none) × (st'' ≡ taken_items))
take_lease-renew_lease_drops_example =
    take_lease-renew_lease_drops world "leases" world-IsDynamo lease_a "w1" items taken_items
      take_result true 120 renewer (omega arith) take_run

renew_leases-once_example : (renew_leases world "leases" (λ i. 120) renewer items).0 ≡ true ∷ []
renew_leases-once_example = renew_leases-once world "leases" (λ i. 120) renewer items (omega arith)

pub listed_items : (list_leases world "leases" false items).0 ≡ success (lease_a ∷ lease_b ∷ [])
unfolding str_eq str_lt find_option insert list_leases to_dynamo_dict from_dynamo_dict print_ull
    safe_str_to_ull
listed_items = refl

take_lease-renew_lease_exclusive_example :
    (let (outcome, (s', st')) = renew_lease world "leases" true 120 lease_a renewer taken_items in
      (find_option s'.owned_leases "shard-0" ≡ none) × (st' ≡ taken_items))
    × (e : AwsError) × (take_lease world "leases" lease_a "w1" renewed_items
        ≡ (failure e, renewed_items))
take_lease-renew_lease_exclusive_example =
    take_lease-renew_lease_exclusive world world-IsDynamo "leases" lease_a lease_a "w1" items
      taken_items renewed_items take_result renew_result true 120 renewer (omega arith) refl refl
      take_run renew_run
