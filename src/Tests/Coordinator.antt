-- ===== src/Tests/Coordinator.antt =====
-- A coordinator that is not yet started, and its checkpointer.
use kclpp.Prelude.{◌≡◌, refl, Bool, false, none, some, [], ◌∷◌, arith, if◌then◌else◌, str_eq}
use kclpp.Prelude.Dict.{find_option}
use kclpp.Outcome.{Outcome, success, failure}
use kclpp.Leases.Dynamo.{AwsError, other_error}
use kclpp.Leases.Manager.{list_leases}
use kclpp.Leases.Coordinator.{
  LeaseCoordinatorState, start, stop, update_lease, get_currently_held_lease,
}
use kclpp.Leases.Renewer
use kclpp.Leases.Renewer.{carries}
use kclpp.Leases.Coordinator.Lifecycle.{start-stop, start_failure-stop}
use kclpp.Leases.Checkpointer.{SetCheckpointParams, set_checkpoint}
use kclpp.Leases.Checkpointer.Progress.{NotSucceeded, is_accepted, set_checkpoint-never}
use kclpp.Tests.World.{world, world-IsDynamo, scanless, lease_a, lease_b, items}
use kclpp.Tests.Taker.{taker}
use kclpp.Tests.Renewer.{renewer, listed_items}

abbrev coordinator : LeaseCoordinatorState
coordinator = record {
  options = record { epsilon = 5; lease_duration_msec = 300 };
  taker_timer = none;
  renewer_timer = none;
  running = false;
  taker = taker;
  renewer = renewer;
}

start-stop_example :
    (c' : LeaseCoordinatorState) × (st' : world.Store) × (c'' : LeaseCoordinatorState) × (start
        world "leases" false coordinator items
      ≡ some (success tt ∷ [], (c', st')))
    × (start world "leases" false c' st' ≡ none)
    × (stop c' ≡ some (success tt ∷ [], c''))
    × (stop c'' ≡ none)
start-stop_example =
    start-stop world "leases" false coordinator items (lease_a ∷ lease_b ∷ []) refl listed_items
      (omega arith)

scan_fails : (list_leases scanless "leases" false items).0 ≡ failure (other_error "no scan")
unfolding list_leases
scan_fails = refl

start_failure-stop_example :
    (c' : LeaseCoordinatorState) × (st' : scanless.Store) × (start scanless "leases" false
        coordinator items
      ≡ some (failure (other_error "no scan") ∷ [], (c', st')))
    × (start scanless "leases" false c' st' ≡ none)
    × (stop c' ≡ none)
start_failure-stop_example =
    start_failure-stop scanless "leases" false coordinator items (other_error "no scan") refl refl
      scan_fails

abbrev checkpoint : SetCheckpointParams
checkpoint = record {
  shard_id = "shard-0";
  concurrency_token = "token";
  sequence_number = record { sequence_number = "50"; sub_sequence_number = none };
}

-- The held lease carries the token.
abbrev holding : LeaseCoordinatorState
holding = record coordinator {
  renewer = record renewer {
    owned_leases = ("shard-0", record lease_a { concurrency_token = some "token" }) ∷ [];
  };
}

set_checkpoint-never_example :
    (r : Outcome Bool AwsError) × NotSucceeded r
    × (set_checkpoint world "leases" checkpoint 120 holding items ≡ (
        if is_accepted "token" (get_currently_held_lease "shard-0" 120 holding)
        then some (r, (holding, items))
        else none))
set_checkpoint-never_example =
    set_checkpoint-never world world-IsDynamo "leases" checkpoint 120 holding items

-- Without the token the process ends.
no_token : set_checkpoint world "leases" checkpoint 120 coordinator items ≡ none
unfolding set_checkpoint get_currently_held_lease update_lease Renewer.update_lease carries
    Renewer.get_currently_held_lease Renewer.get_copy_of_held_lease find_option str_eq
    kclpp.Leases.Lease.is_expired
no_token = refl
