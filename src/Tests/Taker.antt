-- ===== src/Tests/Taker.antt =====
-- The taker of `w1` on the small table, long after the leases were last renewed.
use kclpp.Prelude.{
  none, Option, ℕ, true, ◌≡◌, ◌≢◌, ◌≤◌, ◌<◌, ◌-◌, ◌^◌, refl, String, false, some, List, [], ◌∷◌,
  arith, str_eq, str_lt, length, All, min,
}
use mathlib.Core.List.{Mem}
use kclpp.Prelude.Dict.{
  find_option, values, insert, insert_or_increment, contains, insert_or_update, remove_if_exists,
  remove_key,
}
use kclpp.Outcome.{Outcome, success, failure}
use kclpp.Util.{print_ull, safe_str_to_ull}
use kclpp.Leases.Lease.{Lease, is_expired}
use kclpp.Leases.Codec.{to_dynamo_dict, from_dynamo_dict}
use kclpp.Leases.Dynamo.{conditional_check_failed, AwsError}
use kclpp.Leases.Manager.{TakeLeaseResult, list_leases}
use kclpp.Leases.Taker.{
  LeaseTakerState, update_all_leases, get_expired_leases, compute_lease_counts,
  compute_leases_to_take, target_num,
}
use kclpp.Leases.Taker.Scan.{update_all_leases-success, listed, IsSeen}
use kclpp.Leases.Taker.Choice.{
  IsShuffle, target_of, self_count, compute_leases_to_take-length_le,
  compute_leases_to_take-expired, compute_leases_to_take-steal, compute_leases_to_take-capped,
}
use kclpp.Leases.Taker.Taking.{take_leases, take_leases-once, take_leases_reply}
use kclpp.Tests.World.{world, lease_a, lease_b, items}

code : Unit {0}
unfolding str_eq str_lt find_option insert insert_or_update remove_if_exists remove_key
    insert_or_increment contains compute_lease_counts target_num is_expired get_expired_leases
    compute_leases_to_take update_all_leases list_leases to_dynamo_dict from_dynamo_dict print_ull
    safe_str_to_ull
code = tt

abbrev pub in_order : List Lease → List Lease
in_order ls = ls

in_order-IsShuffle : IsShuffle in_order
in_order-IsShuffle = record { same_length = λ ls. refl; keeps = λ P ls h. h }

-- `w1` knows both leases of `w2`.
abbrev pub taker : LeaseTakerState
taker = record {
  params = record {
    worker_id = "w1";
    lease_duration = 50;
    max_leases_for_worker = 10;
    max_leases_to_steal_at_once = 1;
  };
  last_scan_time = some 120;
  all_leases = ("shard-0", lease_a) ∷ ("shard-1", lease_b) ∷ [];
}

update_all_leases-success_example :
    (let (r, t) = update_all_leases {E = AwsError} (success (lease_b ∷ [])) 500 taker in
      (r ≡ success tt)
      × (t.last_scan_time ≡ some 500)
      × (t.params ≡ taker.params)
      × (listed "shard-1" (lease_b ∷ []) ≡ none → find_option t.all_leases "shard-1" ≡ none)
      × ((new : Lease)
          → listed "shard-1" (lease_b ∷ []) ≡ some new
          → (seen : Option ℕ) × (find_option t.all_leases "shard-1"
              ≡ some (record new { last_counter_increment_nanoseconds = seen }))
            × IsSeen 500 (find_option taker.all_leases "shard-1") new seen))
unfolding code
update_all_leases-success_example =
    update_all_leases-success {E = AwsError} (lease_b ∷ []) 500 taker "shard-1" (refl, tt)

compute_leases_to_take-length_le_example :
    length (compute_leases_to_take in_order taker (lease_a ∷ []))
    ≤ target_of taker (lease_a ∷ []) - self_count taker (lease_a ∷ [])
compute_leases_to_take-length_le_example =
    compute_leases_to_take-length_le in_order in_order-IsShuffle taker (lease_a ∷ [])

cons-nonempty : (l : Lease) → l ∷ [] ≢ []
cons-nonempty l h = ground arith

short : self_count taker (lease_a ∷ []) < target_of taker (lease_a ∷ [])
unfolding code
short = omega arith

compute_leases_to_take-expired_example :
    (let taken = compute_leases_to_take in_order taker (lease_a ∷ []) in
      (length taken ≡ min (target_of taker (lease_a ∷ []) - self_count taker (lease_a ∷ [])) 1)
      × All (λ l. Mem l (lease_a ∷ [])) taken)
compute_leases_to_take-expired_example =
    compute_leases_to_take-expired in_order in_order-IsShuffle taker (lease_a ∷ [])
      (cons-nonempty lease_a) (omega arith) short

compute_leases_to_take-steal_example :
    (let taken = compute_leases_to_take in_order taker [] in
      (length taken ≤ 1)
      × All
          (λ l.
            Mem l (values taker.all_leases) × (o : String) × (l.lease_owner ≡ some o) × (o ≢ "w1"))
          taken)
compute_leases_to_take-steal_example =
    compute_leases_to_take-steal in_order in_order-IsShuffle taker

-- `w1` holds one lease of three, and `w2` two; no more is stolen than one at once.
abbrev capped : LeaseTakerState
capped = record taker {
  all_leases =
      ("shard-0", lease_a)
      ∷ ("shard-1", lease_b)
      ∷ ("shard-2", record lease_b { lease_key = "shard-2"; lease_owner = some "w1" })
      ∷ [];
}

capped_few : length (compute_lease_counts capped []) ≤ 3
unfolding code
capped_few = omega arith

capped_full : 1 ≤ self_count capped []
unfolding code
capped_full = omega arith

compute_leases_to_take-capped_example : compute_leases_to_take in_order capped [] ≡ []
compute_leases_to_take-capped_example =
    compute_leases_to_take-capped in_order in_order-IsShuffle capped [] capped_few capped_full

abbrev pub scanned : LeaseTakerState
scanned = (update_all_leases (list_leases world "leases" false items).0 500 taker).1

pub few_to_take :
    length (compute_leases_to_take in_order scanned (get_expired_leases scanned)) < 2 ^ 64
unfolding code
few_to_take = omega arith

take_leases-once_example : (take_leases world "leases" in_order false 500 taker items).0 ≡ (
    let (outcome, s') = update_all_leases (list_leases world "leases" false items).0 500 taker in
    take_leases_reply world "leases" in_order outcome s' items ∷ [])
take_leases-once_example =
    take_leases-once world "leases" in_order false 500 taker items few_to_take

abbrev answers : List (Outcome TakeLeaseResult AwsError)
answers = failure conditional_check_failed ∷ success (record { taken = true; lease = lease_a }) ∷ []
