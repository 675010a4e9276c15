-- ===== src/Leases/Taker.antt =====
-- include/kclpp/leases/LeaseTaker.h and src/kclpp/leases/LeaseTaker.cpp: which leases a worker
-- takes. The clock is an argument of the call that reads it. `util::randomShuffle` draws from the
-- random device of the host, so it is a parameter: an arbitrary function on vectors of leases.
-- Counts of leases are at most the number of leases and do not wrap.
pub mod Scan
pub mod Counts
pub mod Load
pub mod Choice
pub mod Taking
pub mod Replies
use kclpp.Prelude.{
  ℕ, zero, suc, ◌+◌, ◌-◌, ◌/◌, ◌%◌, min, String, Bool, true, false, ◌&&◌, not, Option, none, some,
  List, [], ◌∷◌, reverse, length, take, is_empty, has_value, str_eq, ltb, leb, ◌==◌, if◌then◌else◌,
}
use kclpp.Prelude.Dict.{
  Dict, keys, values, find_option, insert, insert_or_update, remove_if_exists, contains, remove_key,
  insert_or_increment, count_at,
}
use kclpp.Outcome.{Outcome, success, failure}
use kclpp.Leases.Lease.{LeaseState, Lease, is_expired}

pub record LeaseTakerParams : Type 0 where
  pub worker_id : String
  pub lease_duration : ℕ
  pub max_leases_for_worker : ℕ
  pub max_leases_to_steal_at_once : ℕ

pub record LeaseTakerState : Type 0 where
  pub params : LeaseTakerParams
  pub last_scan_time : Option ℕ
  pub all_leases : Dict Lease

-- `operator==` of two optional counters
abbrev pub optional_eq : Option ℕ → Option ℕ → Bool
optional_eq (some a) (some b) = a == b
optional_eq none none = true
optional_eq _ _ = false

-- the state of a lease after a scan at time `now`, by the lease that was known under its key
abbrev pub updated_state : ℕ → Option Lease → Lease → Lease
updated_state now (some old) new =
    if optional_eq old.lease_counter new.lease_counter
    then record new { last_counter_increment_nanoseconds = old.last_counter_increment_nanoseconds }
    else record new { last_counter_increment_nanoseconds = some now }
updated_state now none new =
    if has_value new.lease_owner
    then record new { last_counter_increment_nanoseconds = some now }
    else record new { last_counter_increment_nanoseconds = none }

-- one round of the loop, over the set `notUpdated` and the map `allLeases`
update_lease : ℕ → Lease → List String × Dict Lease → List String × Dict Lease
update_lease now new (not_updated, leases) =
    let replaced = updated_state now (find_option leases new.lease_key) new in
    (remove_key new.lease_key not_updated, insert_or_update new.lease_key replaced leases)

update_loop : ℕ → List Lease → List String × Dict Lease → List String × Dict Lease
unfolding update_lease
update_loop now [] s = s
update_loop now (new ∷ rest) s = update_loop now rest (update_lease now new s)

remove_all : List String → Dict Lease → Dict Lease
remove_all [] m = m
remove_all (k ∷ ks) m = remove_all ks (remove_if_exists k m)

scan : ℕ → List Lease → Dict Lease → Dict Lease
unfolding update_loop remove_all
scan now updated_leases leases =
    let (not_updated, m) = update_loop now updated_leases (keys leases, leases) in
    remove_all not_updated m

-- `updateAllLeases`, from the outcome of `listLeases` and the time at which it came
unfoldable pub update_all_leases :
    {E : Type 0}
    → Outcome (List Lease) E
    → ℕ
    → LeaseTakerState
    → Outcome (Unit {0}) E × LeaseTakerState
unfolding scan
update_all_leases (failure e) now s = (failure e, s)
update_all_leases (success updated_leases) now s = (
  success tt,
  record s { last_scan_time = some now; all_leases = scan now updated_leases s.all_leases },
)

abbrev as_of_time : Option ℕ → ℕ
as_of_time none = 0
as_of_time (some t) = t

expired_at : ℕ → ℕ → List Lease → List Lease
expired_at lease_duration as_of [] = []
expired_at lease_duration as_of (l ∷ ls) =
    let rest = expired_at lease_duration as_of ls in
    if is_expired l lease_duration as_of then l ∷ rest else rest

unfoldable pub get_expired_leases : LeaseTakerState → List Lease
unfolding expired_at
get_expired_leases s =
    expired_at s.params.lease_duration (as_of_time s.last_scan_time) (values s.all_leases)

abbrev pub LeaseCountMap : Type 0
LeaseCountMap = Dict ℕ

count_owner : Option String → LeaseCountMap → LeaseCountMap
count_owner none counts = counts
count_owner (some owner) counts = insert_or_increment owner 1 counts

count_loop : List String → List Lease → LeaseCountMap → LeaseCountMap
unfolding count_owner
count_loop expired_keys [] counts = counts
count_loop expired_keys (l ∷ ls) counts =
    count_loop expired_keys ls
      (if contains l.lease_key expired_keys then counts else count_owner l.lease_owner counts)

unfoldable pub compute_lease_counts : LeaseTakerState → List String → LeaseCountMap
unfolding count_loop
compute_lease_counts s expired_keys =
    let counts = count_loop expired_keys (values s.all_leases) [] in
    if has_value (find_option counts s.params.worker_id)
    then counts
    else insert s.params.worker_id 0 counts

pub record ChooseLeasesToStealOptions : Type 0 where
  pub needed_num : ℕ
  pub target_num : ℕ

-- the first of the most loaded workers, in the order of the map
pub most_loaded_worker : LeaseCountMap → Option (String × ℕ) → Option (String × ℕ)
most_loaded_worker [] best = best
most_loaded_worker ((w, n) ∷ m) none = most_loaded_worker m (some (w, n))
most_loaded_worker ((w, n) ∷ m) (some (b, k)) =
    most_loaded_worker m (if ltb k n then some (w, n) else some (b, k))

unfoldable pub num_to_steal : ℕ → ℕ → ℕ → ℕ → ℕ
num_to_steal max_at_once load target needed =
    if leb target load && ltb 0 needed
    then (let n = min needed (load - target) in
        min (if ltb 1 needed && n == 0 then 1 else n) max_at_once)
    else 0

abbrev pub is_owner : String → Option String → Bool
is_owner w none = false
is_owner w (some o) = str_eq w o

pub owned_by : String → List Lease → List Lease
owned_by w [] = []
owned_by w (l ∷ ls) =
    let rest = owned_by w ls in if is_owner w l.lease_owner then l ∷ rest else rest

abbrev pub lease_keys : List Lease → List String
lease_keys [] = []
lease_keys (l ∷ ls) = l.lease_key ∷ lease_keys ls

-- how many leases each worker should hold; `max_at_once` caps it only where there are leases enough
unfoldable pub target_num : ℕ → ℕ → ℕ → ℕ
target_num max_at_once num_leases num_workers =
    if ltb num_leases num_workers
    then 1
    else let share = num_leases / num_workers in
      min max_at_once (if num_leases % num_workers == 0 then share else share + 1)

module _ (random_shuffle : List Lease → List Lease) where
  steal_from : LeaseTakerState → ChooseLeasesToStealOptions → Option (String × ℕ) → List Lease
  unfolding num_to_steal owned_by
  steal_from s options none = []
  steal_from s options (some (w, load)) =
      let n =
        num_to_steal s.params.max_leases_to_steal_at_once load options.target_num
          options.needed_num in
      if n == 0 then [] else take n (random_shuffle (owned_by w (values s.all_leases)))

  unfoldable pub choose_leases_to_steal :
      LeaseTakerState → LeaseCountMap → ChooseLeasesToStealOptions → List Lease
  unfolding steal_from most_loaded_worker
  choose_leases_to_steal s counts options = steal_from s options (most_loaded_worker counts none)

  -- the loop that moves leases from the back of the shuffled vector
  take_back : ℕ → List Lease → List Lease
  take_back n shuffled = take n (reverse shuffled)

  -- the last part of `computeLeasesToTake`
  take_or_steal : LeaseTakerState → LeaseCountMap → ℕ → ℕ → List Lease → List Lease
  unfolding take_back choose_leases_to_steal
  take_or_steal s counts target num_to_target expired =
      if is_empty expired
      then choose_leases_to_steal s counts
          (record { needed_num = num_to_target; target_num = target })
      else take_back num_to_target (random_shuffle expired)

  unfoldable pub compute_leases_to_take : LeaseTakerState → List Lease → List Lease
  unfolding take_or_steal compute_lease_counts target_num
  compute_leases_to_take s expired =
      let counts = compute_lease_counts s (lease_keys expired) in
      let num_leases = length s.all_leases in
      let target = target_num s.params.max_leases_to_steal_at_once num_leases (length counts) in
      let self_count = count_at (find_option counts s.params.worker_id) in
      if num_leases == 0
      then []
      else if leb target self_count
      then []
      else take_or_steal s counts target (target - self_count) expired
