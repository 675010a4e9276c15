-- ===== src/Leases/Coordinator/Lifecycle.antt =====
-- Starting and stopping the coordinator, and its periodic tasks.
use kclpp.Prelude.{
  ℕ, ◌<◌, ◌≡◌, refl, String, Bool, true, false, Option, none, some, List, [], ◌∷◌, length,
  if◌then◌else◌, is_empty, Bool-cases, inl, inr,
}
use kclpp.Prelude.Dict.{values}
use kclpp.Outcome.{Outcome, success, failure}
use kclpp.Util.{ull_mod}
use kclpp.Leases.Lease.{Lease}
use kclpp.Leases.Dynamo.{Dynamo, AwsError}
use kclpp.Leases.Manager.{list_leases}
use kclpp.Leases.Taker.{
  LeaseTakerState, update_all_leases, get_expired_leases, compute_leases_to_take,
}
use kclpp.Leases.Taker.Taking.{granted, take_leases, take_leases-once, take_leases_reply}
use kclpp.Leases.Renewer.{add_leases_to_renew, initialize, renew_leases}
use kclpp.Leases.Renewer.Replies.{renew_leases-once, initialize-once}
use kclpp.Leases.Coordinator.{
  LeaseCoordinatorState, start, stop, run_taker, run_renewer, set_running, stop_timers,
  on_each_initialized, on_initialized, on_taken, on_renewed, get_taker_interval,
  get_renewer_interval,
}

abbrev with_timers : Bool → LeaseCoordinatorState → LeaseCoordinatorState
with_timers on c = record c {
  taker_timer = some (record { interval = get_taker_interval c.options; pending = on });
  renewer_timer = some (record { interval = get_renewer_interval c.options; pending = on });
}

module _ (d : Dynamo) (table : String) where
  -- A coordinator that is not running can be started, and one that was started can be stopped: if
  -- the leases can be listed, both tell their callbacks once of success, and in between, `start`
  -- fails; after `stop`, another `stop` fails. The listed leases are fewer than 2 ^ 64.
  pub start-stop :
      (errno : Bool) (c : LeaseCoordinatorState) (st : d.Store) (leases : List Lease)
      → c.running ≡ false
      → (list_leases d table errno st).0 ≡ success leases
      → length leases < ull_mod
      → (c' : LeaseCoordinatorState) × (st' : d.Store) × (c'' : LeaseCoordinatorState) × (start d
            table errno c st
          ≡ some (success tt ∷ [], (c', st')))
        × (start d table errno c' st' ≡ none)
        × (stop c' ≡ some (success tt ∷ [], c''))
        × (stop c'' ≡ none)
  unfolding start stop set_running on_each_initialized on_initialized stop_timers
  start-stop errno c st leases idle listed h =
      let told = initialize-once d table errno c.renewer st (rw listed h) in
      let once : (initialize d table errno c.renewer st).0 ≡ success true ∷ [] =
        rw (told, listed) refl in
      let after = (initialize d table errno c.renewer st).1 in
      let c' = with_timers true (record c { running = true; renewer = after.0 }) in
      (
        c',
        after.1,
        with_timers false (record c' { running = false }),
        rw (once, idle, start) refl,
        refl,
        refl,
        refl,
      )

  -- If the leases cannot be listed when a coordinator without timers is started, `start` tells its
  -- callback of the error, but the coordinator then counts as running: another `start` fails, and
  -- so does `stop`, since there are no timers.
  pub start_failure-stop :
      (errno : Bool) (c : LeaseCoordinatorState) (st : d.Store) (e : AwsError)
      → c.running ≡ false
      → c.taker_timer ≡ none
      → (list_leases d table errno st).0 ≡ failure e
      → (c' : LeaseCoordinatorState) × (st' : d.Store) × (start d table errno c st
          ≡ some (failure e ∷ [], (c', st')))
        × (start d table errno c' st' ≡ none)
        × (stop c' ≡ none)
  unfolding start stop set_running on_each_initialized on_initialized stop_timers
  start_failure-stop errno c st e idle untimed listed =
      let told = initialize-once d table errno c.renewer st (rw listed tt) in
      let once : (initialize d table errno c.renewer st).0 ≡ failure e ∷ [] =
        rw (told, listed) refl in
      let after = (initialize d table errno c.renewer st).1 in
      let c' = record c { running = true; renewer = after.0 } in
      (c', after.1, rw (once, idle, start) refl, refl, rw (untimed, stop) refl)

  -- What becomes of the coordinator after a scan with this outcome, which leaves the taker in `s`.
  abbrev pub taken_result :
      (List Lease → List Lease)
      → Outcome (Unit {0}) AwsError
      → LeaseTakerState
      → LeaseCoordinatorState
      → d.Store
      → Option LeaseCoordinatorState
  taken_result shuffle (failure e) s c st = none
  taken_result shuffle (success u) s c st =
      let to_take = compute_leases_to_take shuffle s (get_expired_leases s) in
      let told = granted d table s.params.worker_id to_take st in
      some (record c {
        taker = s;
        renewer = if c.running then add_leases_to_renew told c.renewer else c.renewer;
      })

  on_taken-reply :
      (shuffle : List Lease → List Lease) (outcome : Outcome (Unit {0}) AwsError)
      (s : LeaseTakerState) (c : LeaseCoordinatorState) (st : d.Store)
      → on_taken (take_leases_reply d table shuffle outcome s st ∷ []) (record c { taker = s })
        ≡ taken_result shuffle outcome s c st
  unfolding on_taken
  on_taken-reply shuffle (failure e) s c st = refl
  on_taken-reply shuffle (success u) s c st = elim (Bool-cases c.running) [
    | inl e ↦ rw e refl
    | inr e ↦ rw e refl
  ]

  -- `runTaker` ends the process, by its `CHECK`, exactly where the leases cannot be listed.
  -- Otherwise the renewer is told of just the leases that were granted, if the coordinator runs.
  -- The chosen leases are fewer than 2 ^ 64.
  pub run_taker-once :
      (shuffle : List Lease → List Lease) (errno : Bool) (now : ℕ) (c : LeaseCoordinatorState)
      (st : d.Store)
      → (let s' = (update_all_leases (list_leases d table errno st).0 now c.taker).1 in
          length (compute_leases_to_take shuffle s' (get_expired_leases s')) < ull_mod)
      → (run_taker d table shuffle errno now c st).0 ≡ (
          let (outcome, s') = update_all_leases (list_leases d table errno st).0 now c.taker in
          taken_result shuffle outcome s' c st)
  unfolding run_taker on_taken take_leases
  run_taker-once shuffle errno now c st h =
      let told = take_leases-once d table shuffle errno now c.taker st h in
      let (outcome, s') = update_all_leases (list_leases d table errno st).0 now c.taker in
      rw told (on_taken-reply shuffle outcome s' c st)

  -- `runRenewer` never ends the process: its callback, if it is called, is told of success. It
  -- changes nothing but the renewer. The held leases are fewer than 2 ^ 64.
  pub run_renewer-total :
      (clock : ℕ → ℕ) (c : LeaseCoordinatorState) (st : d.Store)
      → length (values c.renewer.owned_leases) < ull_mod
      → (run_renewer d table clock c st).0
        ≡ some (record c { renewer = (renew_leases d table clock c.renewer st).1.0 })
  unfolding run_renewer on_renewed
  run_renewer-total clock c st h = elim (Bool-cases (is_empty (values c.renewer.owned_leases))) [
    | inl e ↦ rw (renew_leases-once d table clock c.renewer st h, e) refl
    | inr e ↦ rw (renew_leases-once d table clock c.renewer st h, e) refl
  ]
