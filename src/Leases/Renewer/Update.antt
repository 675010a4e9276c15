-- ===== src/Leases/Renewer/Update.antt =====
-- What `updateLease` of the renewer does to the held leases and to the table.
use kclpp.Prelude.{◌≡◌, inl, inr, refl, String, true, none, some, false, Option-cases, Bool-cases}
use kclpp.Prelude.Dict.{find_option}
use kclpp.Outcome.{Outcome, success, failure}
use kclpp.Leases.Lease.{Lease}
use kclpp.Leases.Dynamo.{Dynamo, IsDynamo, AwsError}
use kclpp.Leases.Manager.{UpdateLeaseResult}
use kclpp.Leases.Manager.Unowned.{update_lease-fails}
use kclpp.Leases.Renewer.{LeaseRenewerState, carries, update_lease, token_differs, on_update}

-- An outcome of an update that is a failure or says that nothing was updated.
abbrev pub NotUpdated : Outcome UpdateLeaseResult AwsError → Type 0
NotUpdated (failure e) = Unit
NotUpdated (success r) = r.updated ≡ false

module _ (d : Dynamo) (laws : IsDynamo d) (table : String) where
  pub update_lease-none :
      (l : Lease) (token : String) (s : LeaseRenewerState) (st : d.Store)
      → carries token l ≡ false
      → update_lease d table l token s st ≡ none
  unfolding update_lease
  update_lease-none l token s st bare = rw bare refl

  -- `updateLease` of the renewer never updates a lease that carries the token: it answers with a failure
  -- or with `updated` false, and the held leases and the table stay as they are.
  pub update_lease-never :
      (l : Lease) (token : String) (s : LeaseRenewerState) (st : d.Store)
      → carries token l ≡ true
      → (r : Outcome UpdateLeaseResult AwsError) × (update_lease d table l token s st
          ≡ some (r, (s, st)))
        × NotUpdated r
  unfolding update_lease on_update
  update_lease-never l token s st carried =
      elim (Option-cases (find_option s.owned_leases l.lease_key)) [
        | inl e ↦ (success (record { updated = false; lease = l }), rw carried (rw e refl), refl)
        | inr (held, e) ↦ elim (Bool-cases (token_differs held.concurrency_token token)) [
          | inl differs ↦ (
            success (record { updated = false; lease = l }),
            rw carried (rw e (rw differs refl)),
            refl,
          )
          | inr same ↦
              let (x, failed) = update_lease-fails d laws table l st in
              (failure x, rw carried (rw e (rw (same, failed) refl)), tt)
        ]
      ]
