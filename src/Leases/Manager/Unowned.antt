-- ===== src/Leases/Manager/Unowned.antt =====
-- What the lease table keeps of a lease that was evicted, and the write that carries no table name.
use kclpp.Prelude.{ap, sym, ◌≡◌, String, Bool, true, some}
use kclpp.Outcome.{success, failure}
use kclpp.Util.{DeserializationError}
use kclpp.Leases.Lease.{Lease}
use kclpp.Leases.Codec.{DynamoDict, from_dynamo_dict}
use kclpp.Leases.Codec.RoundTrip.{from_dynamo_dict-no_owner}
use kclpp.Leases.Dynamo.{Dynamo, IsDynamo, AwsError, item_or_key}
use kclpp.Leases.Manager.{evict_lease, update_lease, with_result}
use kclpp.Leases.Manager.Updates.{meets-make_cas_expectation, owner-evict}
use kclpp.Leases.Manager.Renewal.{with_result-eq_success, internal_success}

module _ (d : Dynamo) (laws : IsDynamo d) (table : String) where
  -- Evicting a lease, if it succeeds, leaves an item that `fromDynamoDict` refuses, since it has
  -- no owner: the evicted lease can no longer be read. The service behaves as documented.
  pub evict_lease-from_dynamo_dict :
      (l : Lease) (st st' : d.Store) (it : DynamoDict) (errno : Bool)
      → evict_lease d table l st ≡ (success true, st')
      → d.item st' table l.lease_key ≡ some it
      → (e : DeserializationError) × ((from_dynamo_dict it errno).0 ≡ failure e)
  unfolding evict_lease
  evict_lease-from_dynamo_dict l st st' it errno h here =
      let (a, sent, f) = with_result-eq_success _ true _ st' h in
      let (m, e) = internal_success d laws table l _ st st' sent in
      let owned =
        (meets-make_cas_expectation l (item_or_key l.lease_key (d.item st table l.lease_key))).0
          m in
      from_dynamo_dict-no_owner it errno
        (rw (sym (ap (item_or_key l.lease_key) here), e) (owner-evict l _ owned.0))

  -- `updateLease` fails at every lease and leaves the table as it is, since its request names no
  -- table: no checkpoint is ever stored.
  pub update_lease-fails :
      (l : Lease) (st : d.Store) → (e : AwsError) × (update_lease d table l st ≡ (failure e, st))
  unfolding update_lease
  update_lease-fails l st =
      let (e, refused) = laws.update_no_table l.lease_key _ _ st in (e, ap (with_result _) refused)
