-- ===== src/Leases/Lease.antt =====
-- include/kclpp/leases/Lease.h and src/kclpp/leases/Lease.cpp. A `Lease` is its `LeaseState`, which
-- no method changes after construction, so a shared pointer to a lease is the value that it shows.
-- `size_t` is the numbers below 2 ^ 64.
pub mod Expiry
use kclpp.Prelude.{
  ℕ, ◌+◌, ◌-◌, ◌*◌, ◌%◌, String, Bool, true, Option, none, some, List, [], ltb, if◌then◌else◌,
}
use kclpp.Util.{ull_mod}
use kclpp.Leases.Sequence.{ExtendedSequenceNumber}

pub record LeaseState : Type 0 where
  pub lease_key : String
  pub lease_owner : Option String
  pub concurrency_token : Option String
  pub last_counter_increment_nanoseconds : Option ℕ
  pub lease_counter : Option ℕ
  pub checkpoint_id : Option String
  pub sub_checkpoint_id : Option String
  pub owner_switches_since_checkpoint : Option ℕ
  pub parent_shard_ids : List String

abbrev pub Lease : Type 0
Lease = LeaseState

-- A default-constructed state.
abbrev pub empty_state : LeaseState
empty_state = record {
  lease_key = "";
  lease_owner = none;
  concurrency_token = none;
  last_counter_increment_nanoseconds = none;
  lease_counter = none;
  checkpoint_id = none;
  sub_checkpoint_id = none;
  owner_switches_since_checkpoint = none;
  parent_shard_ids = [];
}

-- 365 days in nanoseconds
unfoldable pub get_max_lease_age : ℕ
get_max_lease_age =
    let secs_per_day : ℕ = 60 * 60 * 24 in
    let n_days : ℕ = 365 in
    let nanos_per_sec : ℕ = 1000000000 in (secs_per_day * n_days * nanos_per_sec) % ull_mod

-- the unsigned difference wraps
is_expired_since : ℕ → ℕ → ℕ → Bool
is_expired_since lease_duration as_of last =
    let age = (as_of + ull_mod - last) % ull_mod in
    if ltb get_max_lease_age age then true else ltb lease_duration age

unfoldable pub is_expired : Lease → ℕ → ℕ → Bool
unfolding get_max_lease_age is_expired_since
is_expired l lease_duration as_of = elim l.last_counter_increment_nanoseconds [
  | none ↦ true
  | some last ↦ is_expired_since lease_duration as_of last
]

unfoldable pub get_extended_sequence_number : Lease → Option ExtendedSequenceNumber
get_extended_sequence_number l = elim l.checkpoint_id [
  | none ↦ none
  | some c ↦ some (record { sequence_number = c; sub_sequence_number = l.sub_checkpoint_id })
]

-- the copy keeps the old token
abbrev pub copy_with_new_concurrency_token : Lease → Lease
copy_with_new_concurrency_token l = l

abbrev pub copy_shared_with_new_concurrency_token : Lease → Lease
copy_shared_with_new_concurrency_token l = copy_with_new_concurrency_token l

abbrev pub copy_shared : Lease → Lease
copy_shared l = l

abbrev pub incremented : Option ℕ → Option ℕ
incremented (some n) = some ((1 + n) % ull_mod)
incremented none = some 1

unfoldable pub copy_shared_with_incremented_counter : Lease → Lease
copy_shared_with_incremented_counter l = record l { lease_counter = incremented l.lease_counter }
