-- ===== src/Leases/Checkpointer.antt =====
-- include/kclpp/leases/LeaseCheckpointer.h and src/kclpp/leases/LeaseCheckpointer.cpp: storing and
-- reading the checkpoint of a shard. A shard's id is the key of its lease.
pub mod Progress
use kclpp.Prelude.{ℕ, String, Bool, true, false, Option, none, some, ◌>>=◌, List, [], ◌∷◌}
use kclpp.Outcome.{Outcome, success, failure}
use kclpp.Util.{DeserializationError}
use kclpp.Leases.Sequence.{ExtendedSequenceNumber}
use kclpp.Leases.Lease.{Lease, get_extended_sequence_number}
use kclpp.Leases.Dynamo.{Dynamo, AwsError}
use kclpp.Leases.Manager.{UpdateLeaseResult, GetLeaseOutcome, got, check_failed, get_lease}
use kclpp.Leases.Coordinator.{LeaseCoordinatorState, get_currently_held_lease, update_lease}

pub record SetCheckpointParams : Type 0 where
  pub shard_id : String
  pub concurrency_token : String
  pub sequence_number : ExtendedSequenceNumber

-- the outcome of `updateLease` as that of `setCheckpoint`, whose result is its `succeeded`
on_updated : Outcome UpdateLeaseResult AwsError → Outcome Bool AwsError
on_updated (failure e) = failure e
on_updated (success r) = success r.updated

-- the held lease with the new checkpoint
abbrev pub checkpointed : ExtendedSequenceNumber → Lease → Lease
checkpointed n l = record l {
  checkpoint_id = some n.sequence_number;
  sub_checkpoint_id = n.sub_sequence_number;
}

-- how a callback of the service ends: it returns, or it ends the process
pub data Ending : Type 0 where
  returned : Ending
  -- `DCHECK(!!mgrResult.lease)`, at the result of an outcome that is none
  null_lease : Ending
  -- the `CHECK` of `getLease`
  unreadable : DeserializationError → Ending

-- the callback of `getLease`: the calls of the callback of `getCheckpoint`, and how it ends. After
-- a failure it goes on, as there is no `return`.
on_lease : GetLeaseOutcome → List (Outcome (Option ExtendedSequenceNumber) AwsError) × Ending
on_lease (check_failed e) = ([], unreadable e)
on_lease (got (failure e)) = (failure e ∷ [], null_lease)
on_lease (got (success l)) = (success (get_extended_sequence_number l) ∷ [], returned)

module _ (d : Dynamo) (table_name : String) where
  -- none is a DCHECK of `updateLease` that fails
  unfoldable pub set_checkpoint :
      SetCheckpointParams
      → ℕ
      → LeaseCoordinatorState
      → d.Store
      → Option (Outcome Bool AwsError × (LeaseCoordinatorState × d.Store))
  unfolding on_updated
  set_checkpoint p now c st = elim (get_currently_held_lease p.shard_id now c) [
    | none ↦ some (success false, (c, st))
    | some l ↦ do
      (outcome, after) ←
          update_lease d table_name (checkpointed p.sequence_number l) p.concurrency_token c st
      some (on_updated outcome, after)
  ]

  unfoldable pub get_checkpoint :
      String → Bool → d.Store → List (Outcome (Option ExtendedSequenceNumber) AwsError) × Ending
  unfolding on_lease
  get_checkpoint shard_id errno st = on_lease (get_lease d table_name shard_id errno st).0
