-- ===== src/Leases/Cluster/Invariant.antt =====
-- The counter in the table and the copies of the workers, over every step.
use kclpp.Prelude.{
  ℕ, suc, ◌+◌, ◌<◌, ◌≤◌, ◌≡◌, inl, inr, refl, ap, sym, ◌∙◌, subst, String, true, some, arith, All,
  All-set, All-get_elem?, sum_of-set, get_elem?,
}
use kclpp.Prelude.Dict.{find_option}
use kclpp.Outcome.{Outcome, success, failure}
use kclpp.Util.{ull_mod}
use kclpp.Leases.Dynamo.{Dynamo, IsDynamo, AwsError}
use kclpp.Leases.Helpers.{UpdateLeaseParams, default_update}
use kclpp.Leases.Manager.{internal_update_lease, with_result, evict_lease}
use kclpp.Leases.Renewer.{
  LeaseRenewerState, on_init_renewal, add_leases_to_renew, clear_held_leases,
}
use kclpp.Leases.Renewer.Invariant.{
  IsHeldMap, renew_lease-IsHeldMap, add_leases_to_renew-IsHeldMap, cleared-IsHeldMap,
  on_init_renewal-IsHeldMap,
}
use kclpp.Leases.Taker.Taking.{taken_of}
use kclpp.Leases.Cluster.{
  System, Step, Reaches, renews, starts, takes, clears, evicts, here, further, steps,
  worker_becomes,
}
use kclpp.Leases.Cluster.Writes.{HasCounter}
use kclpp.Leases.Cluster.Copies.{rank, copy_of}
use kclpp.Leases.Cluster.Effects.{Effect, renews-Effect, takes-Effect, write-Moves}
use kclpp.Leases.Cluster.Counts.{
  has_current, IsExclusive, none_current, behind-suc, moved-IsExclusive,
}

module _ (d : Dynamo) (laws : IsDynamo d) (table key : String) where
  -- The invariant of a system: the table has a counter, at most `k` steps on from `n`.
  unfoldable pub IsGood : ℕ → ℕ → System d.Store → Type 0
  IsGood n k sys =
      (m : ℕ) × (m ≤ n + k)
      × HasCounter d laws table key sys.store m
      × IsExclusive key m sys.workers

  Effect-IsGood :
      (n k m i : ℕ) (sys : System d.Store) (s s' : LeaseRenewerState) (st' : d.Store)
      → m ≤ n + k
      → IsExclusive key m sys.workers
      → get_elem? sys.workers i ≡ some s
      → Effect d laws table key m s s' st'
      → IsGood n (suc k) (worker_becomes i s' st' sys)
  unfolding IsGood
  Effect-IsGood n k m i sys s s' st' b h at (inl (c, r)) = (
    m,
    omega (arith, b),
    c,
    record {
      behind =
          All-set _ sys.workers i s' h.behind
            (omega (arith, r, All-get_elem? _ sys.workers i s h.behind at));
      at_most_one = ground (
        arith,
        r,
        h.at_most_one,
        All-get_elem? _ sys.workers i s h.behind at,
        sum_of-set (has_current key m) sys.workers i s s' at,
      );
    },
  )
  Effect-IsGood n k m i sys s s' st' b h at (inr (c, r)) = (
    suc m,
    omega (arith, b),
    c,
    record {
      behind = All-set _ sys.workers i s' (behind-suc key m sys.workers h.behind) r;
      at_most_one = ground (
        arith,
        none_current key m sys.workers h.behind,
        sum_of-set (has_current key (suc m)) sys.workers i s s' at,
      );
    },
  )

  with_result-store :
      {A B : Type 0} (b : B) (r : Outcome A AwsError × d.Store) → (with_result b r).1 ≡ r.1
  with_result-store b (success a, st) = refl
  with_result-store b (failure e, st) = refl

  cleared-rank :
      (s : LeaseRenewerState) → rank (copy_of key (clear_held_leases s)) ≤ rank (copy_of key s)
  unfolding clear_held_leases find_option
  cleared-rank s = omega arith

  Step-IsGood :
      (n k : ℕ) {a b : System d.Store}
      → suc (n + k) < ull_mod
      → Step d table a b
      → IsGood n k a
      → IsGood n (suc k) b
  unfolding IsGood evict_lease
  Step-IsGood n k {a} fits (renews i force now l s s' st' o at e) (m, le, c, h) =
      let moves =
        renews-Effect d laws table key m force now l s a.store (omega arith) c
          (All-get_elem? _ a.workers i s h.behind at) in
      Effect-IsGood n k m i a s s' st' le h at
        (subst (λ r. Effect d laws table key m s r.1.0 r.1.1) e moves.0)
  Step-IsGood n k {a} fits (starts i now l s s' st' o at e) (m, le, c, h) =
      let moves =
        renews-Effect d laws table key m true now l s a.store (omega arith) c
          (All-get_elem? _ a.workers i s h.behind at) in
      Effect-IsGood n k m i a s (on_init_renewal o s') st' le h at
        (subst (λ r. Effect d laws table key m s (on_init_renewal r.0 r.1.0) r.1.1) e moves.1)
  Step-IsGood n k {a} fits (takes i name l s st' o at e) (m, le, c, h) =
      let moves =
        takes-Effect d laws table key m l name s a.store (omega arith) c
          (All-get_elem? _ a.workers i s h.behind at) in
      Effect-IsGood n k m i a s (add_leases_to_renew (taken_of o) s) st' le h at (
        subst (λ r. Effect d laws table key m s (add_leases_to_renew (taken_of r.0) s) r.1) e moves)
  Step-IsGood n k {a} fits (clears i s at) (m, le, c, h) =
      Effect-IsGood n k m i a s (clear_held_leases s) a.store le h at (inl (c, cleared-rank s))
  Step-IsGood n k {a} fits (evicts l st' o e) (m, le, c, h) =
      let p : UpdateLeaseParams = record default_update { set_owner_to_null = true } in
      let sent = internal_update_lease d table l p a.store in
      let same : sent.1 ≡ st' = sym (with_result-store true sent) ∙ ap (λ r. r.1) e in
      elim (write-Moves d laws table key m l p a.store sent refl (omega arith) c) [
        | inl c' ↦ (m, omega (arith, le), subst (λ x. HasCounter d laws table key x m) same c', h)
        | inr c' ↦ (
          suc m,
          omega (arith, le),
          subst (λ x. HasCounter d laws table key x (suc m)) same c',
          moved-IsExclusive key m a.workers h,
        )
      ]

  Step-held :
      {a b : System d.Store}
      → Step d table a b
      → All (λ s. IsHeldMap s.owned_leases) a.workers
      → All (λ s. IsHeldMap s.owned_leases) b.workers
  Step-held {a} (renews i force now l s s' st' o at e) h = All-set _ a.workers i s' h (
      subst (λ r. IsHeldMap r.1.0.owned_leases) e
        (renew_lease-IsHeldMap d table force now l s a.store (All-get_elem? _ a.workers i s h at)))
  Step-held {a} (starts i now l s s' st' o at e) h =
      All-set _ a.workers i (on_init_renewal o s') h (
        on_init_renewal-IsHeldMap o s' (
          subst (λ r. IsHeldMap r.1.0.owned_leases) e
            (renew_lease-IsHeldMap d table true now l s a.store
              (All-get_elem? _ a.workers i s h at))))
  Step-held {a} (takes i name l s st' o at e) h =
      All-set _ a.workers i _ h
        (add_leases_to_renew-IsHeldMap (taken_of o) s (All-get_elem? _ a.workers i s h at))
  Step-held {a} (clears i s at) h =
      All-set _ a.workers i (clear_held_leases s) h (cleared-IsHeldMap s)
  Step-held {a} (evicts l st' o e) h = h

  pub Reaches-IsGood :
      (n : ℕ) {a b : System d.Store} (r : Reaches d table a b)
      → n + steps d table r < ull_mod
      → IsGood n 0 a
      → IsGood n (steps d table r) b
  Reaches-IsGood n here fits h = h
  Reaches-IsGood n (further r st) fits h =
      Step-IsGood n (steps d table r) (omega arith) st (Reaches-IsGood n r (omega arith) h)

  pub Reaches-held :
      {a b : System d.Store}
      → Reaches d table a b
      → All (λ s. IsHeldMap s.owned_leases) a.workers
      → All (λ s. IsHeldMap s.owned_leases) b.workers
  Reaches-held here h = h
  Reaches-held (further r st) h = Step-held st (Reaches-held r h)
