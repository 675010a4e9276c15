-- ===== src/Leases/Coordinator.antt =====
-- include/kclpp/leases/LeaseCoordinator.h and src/kclpp/leases/LeaseCoordinator.cpp: the two
-- periodic tasks that take and renew leases. A `CHECK` that fails ends the process, and so does a
-- call through a null timer; the result is then none. What makes
-- a timer fire is the event loop, so the two tasks are operations of their own. `casLoop`
-- runs against no other thread here and ends in its first round.
pub mod Lifecycle
use kclpp.Prelude.{
  ℕ, ◌+◌, ◌-◌, ◌*◌, ◌/◌, String, Bool, true, false, not, Option, none, some, ◌>>=◌, List, [], ◌∷◌,
  if◌then◌else◌,
}
use kclpp.Outcome.{Outcome, success, failure}
use kclpp.Leases.Lease.{Lease}
use kclpp.Leases.Dynamo.{Dynamo, AwsError}
use kclpp.Leases.Manager.{UpdateLeaseResult}
use kclpp.Leases.Taker.{LeaseTakerState}
use kclpp.Leases.Taker.Taking.{take_leases}
use kclpp.Leases.Renewer
use kclpp.Leases.Renewer.{LeaseRenewerState, add_leases_to_renew, renew_leases, initialize}

pub record LeaseCoordinatorOptions : Type 0 where
  pub epsilon : ℕ
  pub lease_duration_msec : ℕ

-- requires that a third of the duration is at least `epsilon`
unfoldable pub get_renewer_interval : LeaseCoordinatorOptions → ℕ
get_renewer_interval o = o.lease_duration_msec / 3 - o.epsilon

unfoldable pub get_taker_interval : LeaseCoordinatorOptions → ℕ
get_taker_interval o = (o.lease_duration_msec + o.epsilon) * 2

-- what a `TimerEvent` is set to
pub record Timer : Type 0 where
  pub interval : ℕ
  pub pending : Bool

abbrev pub del : Timer → Timer
del t = record t { pending = false }

pub record LeaseCoordinatorState : Type 0 where
  pub options : LeaseCoordinatorOptions
  pub taker_timer : Option Timer
  pub renewer_timer : Option Timer
  pub running : Bool
  pub taker : LeaseTakerState
  pub renewer : LeaseRenewerState

-- `casLoop`, on a variable that nobody else writes
abbrev pub cas_loop : Bool → Bool → Bool → Bool × Bool
cas_loop true true desired = (true, desired)
cas_loop false false desired = (true, desired)
cas_loop current _ desired = (false, current)

unfoldable pub set_running : Bool → LeaseCoordinatorState → Bool × LeaseCoordinatorState
set_running b c =
    let (changed, running) = cas_loop c.running (not b) b in
    (changed, record c { running = running })

abbrev pub is_running : LeaseCoordinatorState → Bool
is_running c = c.running

-- the callback that `start` gives to `initialize`
on_initialized :
    Outcome Bool AwsError
    → LeaseCoordinatorState
    → Outcome (Unit {0}) AwsError × LeaseCoordinatorState
unfolding get_taker_interval get_renewer_interval
on_initialized (failure e) c = (failure e, c)
on_initialized (success b) c = (
  success tt,
  record c {
    taker_timer = some (record { interval = get_taker_interval c.options; pending = true });
    renewer_timer = some (record { interval = get_renewer_interval c.options; pending = true });
  },
)

on_each_initialized :
    List (Outcome Bool AwsError)
    → LeaseCoordinatorState
    → List (Outcome (Unit {0}) AwsError) × LeaseCoordinatorState
unfolding on_initialized
on_each_initialized [] c = ([], c)
on_each_initialized (o ∷ os) c =
    let (told, c') = on_initialized o c in
    let (rest, c'') = on_each_initialized os c' in (told ∷ rest, c'')

-- the part of `stop` that runs in the event thread
stop_timers :
    Option Timer
    → Option Timer
    → LeaseCoordinatorState
    → Option (List (Outcome (Unit {0}) AwsError) × LeaseCoordinatorState)
stop_timers (some t) (some r) c =
    some (success tt ∷ [], record c { taker_timer = some (del t); renewer_timer = some (del r) })
stop_timers _ _ c = none

unfoldable pub stop :
    LeaseCoordinatorState → Option (List (Outcome (Unit {0}) AwsError) × LeaseCoordinatorState)
unfolding set_running stop_timers
stop c =
    let (changed, c') = set_running false c in
    if changed then stop_timers c'.taker_timer c'.renewer_timer c' else none

-- the callback that `runTaker` gives to `takeLeases`, for each of its calls
on_taken :
    List (Outcome (List Lease) AwsError) → LeaseCoordinatorState → Option LeaseCoordinatorState
on_taken [] c = some c
on_taken (failure e ∷ os) c = none
on_taken (success ls ∷ os) c =
    on_taken os
      (if is_running c then record c { renewer = add_leases_to_renew ls c.renewer } else c)

-- the callback that `runRenewer` gives to `renewLeases`
on_renewed : List Bool → LeaseCoordinatorState → Option LeaseCoordinatorState
on_renewed [] c = some c
on_renewed (succeeded ∷ os) c = let rest = on_renewed os c in if succeeded then rest else none

module _ (d : Dynamo) (table_name : String) where
  unfoldable pub start :
      Bool
      → LeaseCoordinatorState
      → d.Store
      → Option (List (Outcome (Unit {0}) AwsError) × (LeaseCoordinatorState × d.Store))
  unfolding set_running on_each_initialized
  start errno c st =
      let (changed, c') = set_running true c in
      if changed
      then (let (replies, (renewer, st')) = initialize d table_name errno c'.renewer st in
          let (told, c'') = on_each_initialized replies (record c' { renewer = renewer }) in
          some (told, (c'', st')))
      else none

  unfoldable pub run_taker :
      (List Lease → List Lease)
      → Bool
      → ℕ
      → LeaseCoordinatorState
      → d.Store
      → Option LeaseCoordinatorState × d.Store
  unfolding on_taken
  run_taker shuffle errno now c st =
      let (calls, (taker, st')) = take_leases d table_name shuffle errno now c.taker st in
      (on_taken calls (record c { taker = taker }), st')

  unfoldable pub run_renewer :
      (ℕ → ℕ) → LeaseCoordinatorState → d.Store → Option LeaseCoordinatorState × d.Store
  unfolding on_renewed
  run_renewer clock c st =
      let (calls, (renewer, st')) = renew_leases d table_name clock c.renewer st in
      (on_renewed calls (record c { renewer = renewer }), st')

  unfoldable pub update_lease :
      Lease
      → String
      → LeaseCoordinatorState
      → d.Store
      → Option (Outcome UpdateLeaseResult AwsError × (LeaseCoordinatorState × d.Store))
  update_lease l token c st = do
    (told, (renewer, st')) ← Renewer.update_lease d table_name l token c.renewer st
    some (told, (record c { renewer = renewer }, st'))

unfoldable pub get_currently_held_lease : String → ℕ → LeaseCoordinatorState → Option Lease
get_currently_held_lease key now c = Renewer.get_currently_held_lease key now c.renewer
