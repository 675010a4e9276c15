-- ===== src/Leases/Taker/Load.antt =====
-- The map of counts and the most loaded worker in it.
use kclpp.Prelude.{
  ℕ, ◌≡◌, ◌≤◌, ◌≢◌, ◌⊎◌, String, true, Option, none, some, List, [], ◌∷◌, arith, Bool-cases, inl,
  inr, str_eq_iff, has_value, All,
}
use kclpp.Prelude.Dict.{values, find_option, contains}
use kclpp.Prelude.Dict.Unique.{
  HasUniqueKeys, insert-HasUniqueKeys, insert_or_increment-HasUniqueKeys,
}
use kclpp.Leases.Lease.{Lease}
use kclpp.Leases.Taker.{
  LeaseTakerState, LeaseCountMap, count_owner, count_loop, compute_lease_counts, is_owner,
  num_to_steal, owned_by, most_loaded_worker,
}

count_owner-HasUniqueKeys :
    (o : Option String) (c : LeaseCountMap) → HasUniqueKeys c → HasUniqueKeys (count_owner o c)
unfolding count_owner
count_owner-HasUniqueKeys none c u = u
count_owner-HasUniqueKeys (some o) c u = insert_or_increment-HasUniqueKeys o 1 c u

count_loop-HasUniqueKeys :
    (ex : List String) (ls : List Lease) (c : LeaseCountMap)
    → HasUniqueKeys c
    → HasUniqueKeys (count_loop ex ls c)
unfolding count_loop
count_loop-HasUniqueKeys ex [] c u = u
count_loop-HasUniqueKeys ex (l ∷ ls) c u = elim (Bool-cases (contains l.lease_key ex)) [
  | inl out ↦ rw out (count_loop-HasUniqueKeys ex ls c u)
  | inr kept ↦
      rw kept (count_loop-HasUniqueKeys ex ls _ (count_owner-HasUniqueKeys l.lease_owner c u))
]

pub compute_lease_counts-HasUniqueKeys :
    (s : LeaseTakerState) (ex : List String) → HasUniqueKeys (compute_lease_counts s ex)
unfolding compute_lease_counts
compute_lease_counts-HasUniqueKeys s ex =
    let u = count_loop-HasUniqueKeys ex (values s.all_leases) [] tt in
    elim (Bool-cases
      (has_value (find_option (count_loop ex (values s.all_leases) []) s.params.worker_id))) [
        | inl e ↦ rw e u
        | inr e ↦ rw e (insert-HasUniqueKeys s.params.worker_id 0 _ u)
      ]

-- The worker that is found is an entry of the map, or the one that was best before.
pub most_loaded_worker-find_option :
    (m : LeaseCountMap) (best : Option (String × ℕ)) (w : String) (n : ℕ)
    → HasUniqueKeys m
    → most_loaded_worker m best ≡ some (w, n)
    → (best ≡ some (w, n)) ⊎ (find_option m w ≡ some n)
unfolding most_loaded_worker find_option
most_loaded_worker-find_option [] best w n u h = inl h
most_loaded_worker-find_option ((j, k) ∷ m) none w n u h =
    ground (arith, str_eq_iff j w, most_loaded_worker-find_option m (some (j, k)) w n u.1)
most_loaded_worker-find_option ((j, k) ∷ m) (some (b, i)) w n u h = ground (
  arith,
  str_eq_iff j w,
  most_loaded_worker-find_option m (some (j, k)) w n u.1,
  most_loaded_worker-find_option m (some (b, i)) w n u.1,
)

is_owner-eq : (w : String) (o : Option String) → is_owner w o ≡ true → o ≡ some w
is_owner-eq w none h = ground arith
is_owner-eq w (some o) h = ground (arith, str_eq_iff w o)

pub owned_by-All :
    (w : String) (P : Lease → Type 0) (ls : List Lease)
    → All P ls
    → All (λ l. P l × (l.lease_owner ≡ some w)) (owned_by w ls)
unfolding owned_by
owned_by-All w P [] h = tt
owned_by-All w P (l ∷ ls) h = elim (Bool-cases (is_owner w l.lease_owner)) [
  | inl e ↦ rw e ((h.0, is_owner-eq w l.lease_owner e), owned_by-All w P ls h.1)
  | inr e ↦ rw e (owned_by-All w P ls h.1)
]

pub num_to_steal_bounds :
    (max_at_once load target needed : ℕ)
    → (num_to_steal max_at_once load target needed ≤ max_at_once)
      × (num_to_steal max_at_once load target needed ≤ needed)
      × (num_to_steal max_at_once load target needed ≢ 0 → target ≤ load)
unfolding num_to_steal
num_to_steal_bounds max_at_once load target needed = (ground arith, ground arith, ground arith)
