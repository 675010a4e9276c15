-- ===== src/Leases/Cluster/Exclusive.antt =====
-- At most one worker can renew a lease.
use kclpp.Prelude.{
  ℕ, suc, ◌+◌, ◌<◌, ◌≡◌, ◌≢◌, inl, inr, refl, ap, sym, subst, String, some, arith, All-get_elem?,
  All-map, sum_of-two, get_elem?,
}
use kclpp.Prelude.Dict.{find_option}
use kclpp.Outcome.{success, failure}
use kclpp.Util.{ull_mod}
use kclpp.Leases.Lease.{Lease}
use kclpp.Leases.Dynamo.{Dynamo, IsDynamo, AwsError}
use kclpp.Leases.Helpers.{default_update}
use kclpp.Leases.Manager
use kclpp.Leases.Manager.{
  internal_update_lease, RenewLeaseResult, TakeLeaseResult, with_result, take_lease, evict_lease,
}
use kclpp.Leases.Manager.Renewal.{renew_lease-internal}
use kclpp.Leases.Renewer.{LeaseRenewerState}
use kclpp.Leases.Renewer.Invariant.{IsHeldMap, nil-IsHeldMap}
use kclpp.Leases.Cluster.{System, Reaches, steps}
use kclpp.Leases.Cluster.Writes.{HasCounter, write-counter, write-stale}
use kclpp.Leases.Cluster.Counts.{has_current, HoldNothing, nothing-IsExclusive}
use kclpp.Leases.Cluster.Invariant.{IsGood, Reaches-IsGood, Reaches-held}

module _ (d : Dynamo) (laws : IsDynamo d) (table key : String) where
  -- However the workers of a system renew, start, take, clear and evict from a state in which they hold
  -- nothing, at most one of them can renew a lease: where two workers hold a copy of it and the renewal of
  -- one copy would succeed now, that of the other one fails and leaves the table as it is. The table has a
  -- counter for the lease, and the counter and the steps together stay below 2 ^ 64. The service behaves
  -- as documented.
  pub renewals_exclusive :
      (n i j : ℕ) {a b : System d.Store} (r : Reaches d table a b) (s t : LeaseRenewerState)
      (l m : Lease) (q : RenewLeaseResult) (st' : d.Store)
      → HasCounter d laws table key a.store n
      → n + suc (steps d table r) < ull_mod
      → HoldNothing key a.workers
      → i ≢ j
      → get_elem? b.workers i ≡ some s
      → get_elem? b.workers j ≡ some t
      → find_option s.owned_leases key ≡ some l
      → find_option t.owned_leases key ≡ some m
      → Manager.renew_lease d table l b.store ≡ (success q, st')
      → (e : AwsError) × (Manager.renew_lease d table m b.store ≡ (failure e, b.store))
  unfolding IsGood Manager.renew_lease
  renewals_exclusive n i j {a} {b} r s t l m q st' start fits empty apart at_i at_j has_l has_m
        renewed =
      let held =
        Reaches-held d laws table key r
          (All-map (λ w e. subst IsHeldMap (sym e) nil-IsHeldMap) a.workers empty) in
      let (now, le, c, h) =
        Reaches-IsGood d laws table key n r (omega arith)
          (n, omega arith, start, nothing-IsExclusive key n a.workers empty) in
      let (sent, _) = renew_lease-internal d laws table l b.store st' q renewed in
      let key_l = (All-get_elem? _ b.workers i s held at_i).keyed key l has_l in
      let key_m = (All-get_elem? _ b.workers j t held at_j).keyed key m has_m in
      let two = sum_of-two (has_current key now) b.workers i j s t apart at_i at_j in
      elim (write-counter d laws table key now l default_update b.store st' (success tt)
        (omega arith) c sent) [
          | inl (_, other) ↦ absurd (other refl key_l)
          | inr (_, counter, _) ↦
              let late : m.lease_counter ≢ some now =
                λ e. ground (arith, e, counter, has_l, has_m, two, h.at_most_one) in
              let (x, refused) =
                write-stale d laws table key now m default_update b.store c key_m late in
              (x, ap (with_result _) refused)
        ]
