-- ===== src/Leases/Renewer/Rivals.antt =====
-- Two workers and one lease: the take of src/kclpp/leases/LeaseManager.cpp by one of them, and the renewal
-- of src/kclpp/leases/LeaseRenewer.cpp by the other one.
use kclpp.Prelude.{ℕ, ◌≤◌, ◌≡◌, ap, sym, String, Bool, none, some}
use kclpp.Prelude.Dict.{find_option}
use kclpp.Outcome.{success, failure}
use kclpp.Util.{ullong_max}
use kclpp.Leases.Codec.{count_or_zero}
use kclpp.Leases.Lease.{Lease}
use kclpp.Leases.Dynamo.{Dynamo, IsDynamo, AwsError}
use kclpp.Leases.Helpers.{UpdateLeaseParams, default_update}
use kclpp.Leases.Manager
use kclpp.Leases.Manager.{
  RenewLeaseResult, TakeLeaseResult, take_lease, with_result, internal_update_lease,
}
use kclpp.Leases.Manager.Renewal.{
  internal_update_lease_exclusive, take_lease-internal, renew_lease-internal,
}
use kclpp.Leases.Renewer.{LeaseRenewerState, renew_lease}
use kclpp.Leases.Renewer.Held.{refused-drops}

module _ (d : Dynamo) (laws : IsDynamo d) (table : String) where
  -- Worker `b` has read a lease that another worker holds, with the counter that it has. Whichever of
  -- the two writes first excludes the other: after a successful take the holder's next renewal, forced
  -- or not, drops the lease, and after a successful renewal the take fails; each leaves the table as
  -- it was. The counter fits in 64 bits. The service behaves as documented.
  pub take_lease-renew_lease_exclusive :
      (l m : Lease) (b : String) (st st₁ st₂ : d.Store) (r : TakeLeaseResult) (q : RenewLeaseResult)
      (force : Bool) (now : ℕ) (s : LeaseRenewerState)
      → count_or_zero l.lease_counter ≤ ullong_max
      → m.lease_key ≡ l.lease_key
      → m.lease_counter ≡ l.lease_counter
      → take_lease d table l b st ≡ (success r, st₁)
      → Manager.renew_lease d table m st ≡ (success q, st₂)
      → (let (outcome, (s', st')) = renew_lease d table force now m s st₁ in
          (find_option s'.owned_leases m.lease_key ≡ none) × (st' ≡ st₁))
        × (e : AwsError) × (take_lease d table l b st₂ ≡ (failure e, st₂))
  unfolding Manager.renew_lease take_lease
  take_lease-renew_lease_exclusive l m b st st₁ st₂ r q force now s fits key counter taken renewed =
      let p : UpdateLeaseParams = record default_update { new_owner = some b } in
      let (t, _) = take_lease-internal d laws table l b st st₁ r taken in
      let (u, _) = renew_lease-internal d laws table m st st₂ q renewed in
      let (x, refused) =
        internal_update_lease_exclusive d laws table l m p default_update st st₁ fits key counter
          t in
      let (y, late) =
        internal_update_lease_exclusive d laws table m l default_update p st st₂ (rw counter fits)
          (sym key) (sym counter) u in
      (
        refused-drops d table m s st₁ force now x (ap (with_result _) refused),
        y,
        ap (with_result _) late,
      )
