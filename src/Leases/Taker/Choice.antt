-- ===== src/Leases/Taker/Choice.antt =====
-- Which leases `computeLeasesToTake` returns.
use mathlib.Core.List.{Mem}
use kclpp.Prelude.{
  ℕ, ◌-◌, ◌≡◌, refl, ◌≤◌, ◌<◌, ◌≢◌, String, true, false, Option, none, some, List, [], ◌∷◌, arith,
  Bool-cases, inl, inr, reverse, ◌==◌, length, ltb, leb, min, All, All-map, All-Mem, All-reverse,
  All-take, length-take, length-reverse, ap,
}
use kclpp.Prelude.Dict.{values, find_option, count_at}
use kclpp.Leases.Lease.{Lease}
use kclpp.Leases.Taker.{
  LeaseTakerState, LeaseCountMap, compute_lease_counts, choose_leases_to_steal, steal_from,
  take_or_steal, take_back, compute_leases_to_take, target_num, lease_keys, num_to_steal, owned_by,
  most_loaded_worker, ChooseLeasesToStealOptions,
}
use kclpp.Leases.Taker.Load.{
  compute_lease_counts-HasUniqueKeys, most_loaded_worker-find_option, owned_by-All,
  num_to_steal_bounds,
}

-- What is relied on of the shuffle: it keeps the number of leases, and makes up none.
pub record IsShuffle (shuffle : List Lease → List Lease) : Type 1 where
  pub same_length : (ls : List Lease) → length (shuffle ls) ≡ length ls
  pub keeps : (P : Lease → Type 0) (ls : List Lease) → All P ls → All P (shuffle ls)

-- The number of leases that the worker aims to hold, and how many it holds.
abbrev pub target_of : LeaseTakerState → List Lease → ℕ
target_of s expired =
    target_num s.params.max_leases_to_steal_at_once (length s.all_leases)
      (length (compute_lease_counts s (lease_keys expired)))

abbrev pub self_count : LeaseTakerState → List Lease → ℕ
self_count s expired =
    count_at (find_option (compute_lease_counts s (lease_keys expired)) s.params.worker_id)

module _ (shuffle : List Lease → List Lease) (sh : IsShuffle shuffle) where
  steal_from-length :
      (s : LeaseTakerState) (o : ChooseLeasesToStealOptions) (b : Option (String × ℕ))
      → (length (steal_from shuffle s o b) ≤ o.needed_num)
        × (length (steal_from shuffle s o b) ≤ s.params.max_leases_to_steal_at_once)
  unfolding steal_from
  steal_from-length s o none = (omega arith, omega arith)
  steal_from-length s o (some (w, load)) =
      let b =
        num_to_steal_bounds s.params.max_leases_to_steal_at_once load o.target_num o.needed_num in
      let n = num_to_steal s.params.max_leases_to_steal_at_once load o.target_num o.needed_num in
      let len = length-take n (shuffle (owned_by w (values s.all_leases))) in
      (ground (arith, b, len), ground (arith, b, len))

  take_or_steal-length :
      (s : LeaseTakerState) (c : LeaseCountMap) (target n : ℕ) (expired : List Lease)
      → length (take_or_steal shuffle s c target n expired) ≤ n
  unfolding take_or_steal take_back choose_leases_to_steal
  take_or_steal-length s c target n [] =
      (steal_from-length s (record { needed_num = n; target_num = target })
        (most_loaded_worker c none)).0
  take_or_steal-length s c target n (l ∷ ls) =
      omega (arith, length-take n (reverse (shuffle (l ∷ ls))))

  -- A worker never takes more leases than it is short of its target; one that has reached the
  -- target takes none. The shuffle keeps the number of leases and makes up none.
  pub compute_leases_to_take-length_le :
      (s : LeaseTakerState) (expired : List Lease)
      → length (compute_leases_to_take shuffle s expired)
        ≤ target_of s expired - self_count s expired
  unfolding compute_leases_to_take
  compute_leases_to_take-length_le s expired = ground (
    arith,
    take_or_steal-length s (compute_lease_counts s (lease_keys expired)) (target_of s expired)
        (target_of s expired - self_count s expired) expired,
  )

  compute_short :
      (s : LeaseTakerState) (expired : List Lease)
      → length s.all_leases ≢ 0
      → self_count s expired < target_of s expired
      → compute_leases_to_take shuffle s expired
        ≡ take_or_steal shuffle s
            (compute_lease_counts s (lease_keys expired))
            (target_of s expired)
            (target_of s expired - self_count s expired)
            expired
  unfolding compute_leases_to_take
  compute_short s expired k short =
      let a : (length s.all_leases == 0) ≡ false = ground arith in
      let b : leb (target_of s expired) (self_count s expired) ≡ false = ground arith in
      rw (a, b) refl

  compute_nothing :
      (s : LeaseTakerState) (expired : List Lease)
      → length s.all_leases ≡ 0
      → compute_leases_to_take shuffle s expired ≡ []
  unfolding compute_leases_to_take
  compute_nothing s expired h =
      let b : (length s.all_leases == 0) ≡ true = ground arith in rw b refl

  compute_sated :
      (s : LeaseTakerState) (expired : List Lease)
      → target_of s expired ≤ self_count s expired
      → compute_leases_to_take shuffle s expired ≡ []
  unfolding compute_leases_to_take
  compute_sated s expired h =
      let b : leb (target_of s expired) (self_count s expired) ≡ true = ground arith in
      rw b (ground arith)

  -- Where leases have expired, some lease is known and the worker is short of its target, it takes
  -- expired leases only, and as many as there are of them up to the target. The shuffle keeps the
  -- number of leases and makes up none.
  pub compute_leases_to_take-expired :
      (s : LeaseTakerState) (expired : List Lease)
      → expired ≢ []
      → length s.all_leases ≢ 0
      → self_count s expired < target_of s expired
      → let taken = compute_leases_to_take shuffle s expired in
        (length taken ≡ min (target_of s expired - self_count s expired) (length expired))
        × All (λ l. Mem l expired) taken
  unfolding compute_leases_to_take take_or_steal take_back
  compute_leases_to_take-expired s [] h k short = absurd (h refl)
  compute_leases_to_take-expired s (l ∷ ls) h k short =
      let n = target_of s (l ∷ ls) - self_count s (l ∷ ls) in
      rw (compute_short s (l ∷ ls) k short, take_or_steal)
        (
          omega (
            arith,
            length-take n (reverse (shuffle (l ∷ ls))),
            length-reverse (shuffle (l ∷ ls)),
            sh.same_length (l ∷ ls),
          ),
          All-take _ n (reverse (shuffle (l ∷ ls)))
              (All-reverse _ (shuffle (l ∷ ls)) (sh.keeps _ (l ∷ ls) (All-Mem (l ∷ ls)))),
        )

  abbrev IsForeign : LeaseTakerState → Lease → Type 0
  IsForeign s l =
      Mem l (values s.all_leases)
      × (o : String) × (l.lease_owner ≡ some o)
      × (o ≢ s.params.worker_id)

  steal_from-IsForeign :
      (s : LeaseTakerState) (o : ChooseLeasesToStealOptions) (b : Option (String × ℕ))
      → ((w : String) (load : ℕ)
          → b ≡ some (w, load)
          → o.target_num ≤ load
          → w ≢ s.params.worker_id)
      → All (IsForeign s) (steal_from shuffle s o b)
  unfolding steal_from
  steal_from-IsForeign s o none other = tt
  steal_from-IsForeign s o (some (w, load)) other =
      let n = num_to_steal s.params.max_leases_to_steal_at_once load o.target_num o.needed_num in
      elim (Bool-cases (n == 0)) [
        | inl e ↦ rw e tt
        | inr e ↦
            let b =
              num_to_steal_bounds s.params.max_leases_to_steal_at_once load o.target_num
                o.needed_num in
            let apart = other w load refl (b.2 (ground arith)) in
            rw e (
              All-take _ n _ (
                sh.keeps _ _ (
                  All-map (λ l h. (h.0, w, h.1, apart)) _
                    (owned_by-All w _ _ (All-Mem (values s.all_leases))))))
      ]

  most_loaded_apart :
      (s : LeaseTakerState) (w : String) (load : ℕ)
      → self_count s [] < target_of s []
      → most_loaded_worker (compute_lease_counts s []) none ≡ some (w, load)
      → target_of s [] ≤ load
      → w ≢ s.params.worker_id
  most_loaded_apart s w load short h t e =
      elim (most_loaded_worker-find_option (compute_lease_counts s []) none w load
        (compute_lease_counts-HasUniqueKeys s []) h) [
          | inl p ↦ cc
          | inr p ↦
              let mine = ap (find_option (compute_lease_counts s [])) e in ground (arith, p, mine)
        ]

  -- Where no lease has expired, the worker takes known leases that another worker owns, never its
  -- own, and no more than it may steal at once. The shuffle keeps the number of leases and makes
  -- up none.
  pub compute_leases_to_take-steal :
      (s : LeaseTakerState)
      → let taken = compute_leases_to_take shuffle s [] in
        (length taken ≤ s.params.max_leases_to_steal_at_once)
        × All
            (λ l.
              Mem l (values s.all_leases)
              × (o : String) × (l.lease_owner ≡ some o)
              × (o ≢ s.params.worker_id))
            taken
  unfolding compute_leases_to_take take_or_steal choose_leases_to_steal
  compute_leases_to_take-steal s = elim (Bool-cases (ltb (self_count s []) (target_of s []))) [
    | inr sated ↦ rw (compute_sated s [] (ground arith)) (omega arith, tt)
    | inl short ↦ elim (Bool-cases (length s.all_leases == 0)) [
      | inl nothing ↦ rw (compute_nothing s [] (ground arith)) (omega arith, tt)
      | inr some_known ↦
          let c = compute_lease_counts s [] in
          let o : ChooseLeasesToStealOptions = record {
            needed_num = target_of s [] - self_count s [];
            target_num = target_of s [];
          } in
          rw (compute_short s [] (ground arith) (ground arith), take_or_steal)
            (
              (steal_from-length s o (most_loaded_worker c none)).1,
              steal_from-IsForeign s o (most_loaded_worker c none)
                  (λ w load h t. most_loaded_apart s w load (ground arith) h t),
            )
    ]
  ]

  -- Where there are at least as many leases as workers, a worker that already holds as many leases
  -- as it may steal at once takes none, whatever has expired.
  pub compute_leases_to_take-capped :
      (s : LeaseTakerState) (expired : List Lease)
      → length (compute_lease_counts s (lease_keys expired)) ≤ length s.all_leases
      → s.params.max_leases_to_steal_at_once ≤ self_count s expired
      → compute_leases_to_take shuffle s expired ≡ []
  unfolding target_num
  compute_leases_to_take-capped s expired few full = compute_sated s expired (ground arith)
