-- ===== src/Leases/Checkpointer/Progress.antt =====
-- What becomes of a checkpoint: the write, and the read of one that stands in the table.
use kclpp.Prelude.{
  ℕ, sym, ◌∙◌, ◌≡◌, inl, inr, refl, ◌≢◌, String, Bool, true, false, Option, none, some, Bool-cases,
  arith, if◌then◌else◌, [], ◌∷◌, Option-cases,
}
use kclpp.Outcome.{Outcome, success, failure}
use kclpp.Leases.Lease.{Lease, get_extended_sequence_number}
use kclpp.Leases.Sequence.{ExtendedSequenceNumber}
use kclpp.Leases.Codec.{to_dynamo_dict}
use kclpp.Leases.Codec.RoundTrip.{IsStorable, from_dynamo_dict-to_dynamo_dict}
use kclpp.Leases.Dynamo.{Dynamo, IsDynamo, AwsError}
use kclpp.Leases.Manager.{get_lease, on_get_item, UpdateLeaseResult}
use kclpp.Leases.Renewer
use kclpp.Leases.Renewer.{carries}
use kclpp.Leases.Renewer.Update.{NotUpdated, update_lease-never, update_lease-none}
use kclpp.Leases.Coordinator.{LeaseCoordinatorState, update_lease, get_currently_held_lease}
use kclpp.Leases.Checkpointer.{
  SetCheckpointParams, set_checkpoint, get_checkpoint, on_updated, checkpointed, returned, on_lease,
}

abbrev pub NotSucceeded : Outcome Bool AwsError → Type 0
NotSucceeded (failure e) = Unit
NotSucceeded (success b) = b ≡ false

on_updated-NotSucceeded :
    (o : Outcome UpdateLeaseResult AwsError) → NotUpdated o → NotSucceeded (on_updated o)
unfolding on_updated
on_updated-NotSucceeded (failure e) h = tt
on_updated-NotSucceeded (success r) h = h

carries-checkpointed :
    (token : String) (n : ExtendedSequenceNumber) (l : Lease)
    → carries token (checkpointed n l) ≡ carries token l
unfolding carries
carries-checkpointed token n l = refl

-- Whether a lease that is held, if any, carries a token.
abbrev pub is_accepted : String → Option Lease → Bool
is_accepted token none = true
is_accepted token (some l) = carries token l

module _ (d : Dynamo) (laws : IsDynamo d) (table : String) where
  update_lease-renewer :
      (l : Lease) (token : String) (c : LeaseCoordinatorState) (st : d.Store)
      (r : Outcome UpdateLeaseResult AwsError)
      → Renewer.update_lease d table l token c.renewer st ≡ some (r, (c.renewer, st))
      → update_lease d table l token c st ≡ some (r, (c, st))
  unfolding update_lease
  update_lease-renewer l token c st r e = rw (e, update_lease) refl

  set_checkpoint-held :
      (p : SetCheckpointParams) (now : ℕ) (c : LeaseCoordinatorState) (st : d.Store) (l : Lease)
      (r : Outcome UpdateLeaseResult AwsError)
      → get_currently_held_lease p.shard_id now c ≡ some l
      → update_lease d table (checkpointed p.sequence_number l) p.concurrency_token c st
        ≡ some (r, (c, st))
      → set_checkpoint d table p now c st ≡ some (on_updated r, (c, st))
  unfolding set_checkpoint
  set_checkpoint-held p now c st l r e u = rw (e, set_checkpoint) (rw u refl)

  update_lease-renewer_none :
      (l : Lease) (token : String) (c : LeaseCoordinatorState) (st : d.Store)
      → Renewer.update_lease d table l token c.renewer st ≡ none
      → update_lease d table l token c st ≡ none
  unfolding update_lease
  update_lease-renewer_none l token c st e = rw (e, update_lease) refl

  set_checkpoint-bare :
      (p : SetCheckpointParams) (now : ℕ) (c : LeaseCoordinatorState) (st : d.Store) (l : Lease)
      → get_currently_held_lease p.shard_id now c ≡ some l
      → update_lease d table (checkpointed p.sequence_number l) p.concurrency_token c st ≡ none
      → set_checkpoint d table p now c st ≡ none
  unfolding set_checkpoint
  set_checkpoint-bare p now c st l e u = rw (e, set_checkpoint) (rw u refl)

  -- No checkpoint is ever stored. Where the worker holds the lease of the shard and the lease does not
  -- carry the token that `setCheckpoint` is given, the process ends. In every other case, whatever the
  -- shard and the sequence number are, it answers with a failure or with `succeeded` false, and neither
  -- the coordinator nor the table changes. The service behaves as documented.
  pub set_checkpoint-never :
      (p : SetCheckpointParams) (now : ℕ) (c : LeaseCoordinatorState) (st : d.Store)
      → (r : Outcome Bool AwsError) × NotSucceeded r
        × (set_checkpoint d table p now c st ≡ (
            if is_accepted p.concurrency_token (get_currently_held_lease p.shard_id now c)
            then some (r, (c, st))
            else none))
  unfolding set_checkpoint update_lease
  set_checkpoint-never p now c st =
      elim (Option-cases (get_currently_held_lease p.shard_id now c)) [
        | inl e ↦ (success false, refl, ground (arith, e))
        | inr (l, e) ↦ elim (Bool-cases (carries p.concurrency_token l)) [
          | inl carried ↦
              let (r, same, refused) =
                update_lease-never d laws table (checkpointed p.sequence_number l)
                  p.concurrency_token c.renewer st
                  (carries-checkpointed p.concurrency_token p.sequence_number l ∙ carried) in
              let stored =
                set_checkpoint-held p now c st l r e (update_lease-renewer _ _ c st r same) in
              (
                on_updated r,
                on_updated-NotSucceeded r refused,
                stored ∙ sym (rw (e, is_accepted) (rw carried refl)),
              )
          | inr bare ↦
              let lost = set_checkpoint-bare p now c st l e (
                update_lease-renewer_none _ _ c st (
                  update_lease-none d laws table (checkpointed p.sequence_number l)
                    p.concurrency_token c.renewer st
                    (carries-checkpointed p.concurrency_token p.sequence_number l ∙ bare))) in
              (success false, refl, lost ∙ sym (rw (e, is_accepted) (rw bare refl)))
        ]
      ]

-- Where the service finds under the shard's id what `toDynamoDict` wrote of a storable lease with
-- an owner, and `errno` is clear, `getCheckpoint` tells its callback once of the checkpoint of
-- that lease, and returns.
pub get_checkpoint-to_dynamo_dict :
    (d : Dynamo) (table shard_id : String) (st : d.Store) (l : Lease) (o : String)
    → IsStorable l
    → l.lease_owner ≡ some o
    → o ≢ ""
    → d.get_item table shard_id st ≡ success (to_dynamo_dict l)
    → get_checkpoint d table shard_id false st
      ≡ (success (get_extended_sequence_number l) ∷ [], returned)
unfolding get_checkpoint get_lease on_lease on_get_item get_extended_sequence_number
get_checkpoint-to_dynamo_dict d table shard_id st l o storable owned named e =
    rw e (rw (from_dynamo_dict-to_dynamo_dict l o storable owned named, on_get_item) refl)
