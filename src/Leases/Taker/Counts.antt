-- ===== src/Leases/Taker/Counts.antt =====
-- What `computeLeaseCounts` counts.
use kclpp.Prelude.{
  ℕ, ◌+◌, ◌≡◌, refl, String, not, ◌&&◌, Option, none, some, List, [], ◌∷◌, arith, ap, Bool-cases,
  inl, inr, str_eq, str_eq_iff, if◌then◌else◌, ◌==◌,
}
use kclpp.Prelude.Dict.{
  values, find_option, contains, find_option-insert, find_option-insert_or_increment,
}
use kclpp.Leases.Lease.{Lease}
use kclpp.Leases.Taker.{
  LeaseTakerState, LeaseCountMap, count_owner, count_loop, compute_lease_counts, is_owner,
}

-- How many leases of a list are owned by a worker and are not under an expired key.
pub held_count : List String → String → List Lease → ℕ
held_count expired_keys w [] = 0
held_count expired_keys w (l ∷ ls) =
    (if not (contains l.lease_key expired_keys) && is_owner w l.lease_owner then 1 else 0)
    + held_count expired_keys w ls

-- An entry of the map of counts: there is none where there is nothing to count.
abbrev pub entry : ℕ → Option ℕ
entry n = if n == 0 then none else some n

count_owner-entry :
    (owner : Option String) (counts : LeaseCountMap) (w : String) (n : ℕ)
    → find_option counts w ≡ entry n
    → find_option (count_owner owner counts) w ≡ entry (n + (if is_owner w owner then 1 else 0))
unfolding count_owner
count_owner-entry none counts w n h = rw h (ground arith)
count_owner-entry (some o) counts w n h =
    ground (arith, str_eq_iff o w, str_eq_iff w o, find_option-insert_or_increment o w 1 counts)

count_loop-entry :
    (ex : List String) (ls : List Lease) (counts : LeaseCountMap) (w : String) (n : ℕ)
    → find_option counts w ≡ entry n
    → find_option (count_loop ex ls counts) w ≡ entry (n + held_count ex w ls)
unfolding count_loop held_count
count_loop-entry ex [] counts w n h = rw h (ground arith)
count_loop-entry ex (l ∷ ls) counts w n h = elim (Bool-cases (contains l.lease_key ex)) [
  | inl out ↦
      rw out (let rest = count_loop-entry ex ls counts w n h in rw rest (ap entry (omega arith)))
  | inr kept ↦ rw kept (
      let step = count_owner-entry l.lease_owner counts w n h in
      let rest = count_loop-entry ex ls (count_owner l.lease_owner counts) w _ step in
      rw rest (ap entry (omega arith)))
]

-- The map of counts holds, for each worker with an unexpired lease, how many of these it owns; for
-- the worker itself an entry in any case; and nothing else.
pub compute_lease_counts-find_option :
    (s : LeaseTakerState) (ex : List String) (w : String)
    → find_option (compute_lease_counts s ex) w ≡ (
        let n = held_count ex w (values s.all_leases) in
        if str_eq s.params.worker_id w then some n else entry n)
unfolding compute_lease_counts
compute_lease_counts-find_option s ex w =
    let me = s.params.worker_id in
    let counts = count_loop ex (values s.all_leases) [] in
    let at_w = count_loop-entry ex (values s.all_leases) [] w 0 (unfold find_option in refl) in
    let at_me = count_loop-entry ex (values s.all_leases) [] me 0 (unfold find_option in refl) in
    ground (arith, at_w, at_me, str_eq_iff me w, find_option-insert me w 0 counts)
