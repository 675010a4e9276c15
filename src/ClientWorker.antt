-- ===== src/ClientWorker.antt =====
-- include/kclpp/clientlib/worker/Worker.h and WorkerState.h: the worker of the client library, around the
-- lease coordinator. What the coordinator answers to `start` and to `stop` is an argument; its own model is
-- the module Leases.Coordinator. The processing loop runs in the event thread.
pub mod Shutdown
use kclpp.Prelude.{
  ℕ, zero, suc, ◌+◌, String, Bool, true, false, Option, none, some, List, [], ◌∷◌, if◌then◌else◌,
}
use kclpp.Outcome.{Outcome, success, failure}
use kclpp.Leases.Coordinator.{cas_loop}
use kclpp.Async.Worker.{Ends, returns, aborts, blocks}

pub record WorkerShutdownState : Type 0 where
  pub shutdown : Bool
  pub shutdown_start_time : ℕ
  pub shutdown_complete : Bool

abbrev pub new_state : WorkerShutdownState
new_state = record { shutdown = false; shutdown_start_time = 0; shutdown_complete = false }

unfoldable pub set_shutdown : WorkerShutdownState → Bool × WorkerShutdownState
set_shutdown s = let (won, v) = cas_loop s.shutdown false true in (won, record s { shutdown = v })

unfoldable pub set_start_time : ℕ → WorkerShutdownState → Bool × WorkerShutdownState
set_start_time now s = (true, record s { shutdown_start_time = now })

unfoldable pub set_shutdown_complete : WorkerShutdownState → Bool × WorkerShutdownState
set_shutdown_complete s =
    let (won, v) = cas_loop s.shutdown_complete false true in
    (won, record s { shutdown_complete = v })

abbrev pub UnitOutcome : Type 0
UnitOutcome = Outcome (Unit {0}) String

-- the callback of `leaseCoordinator->stop` in `shutdown`; the answer is `result.startedShutdown`
unfoldable pub on_stopped : UnitOutcome → Outcome Bool String
on_stopped (failure e) = failure e
on_stopped (success u) = success true

-- `shutdown`, with what the coordinator answers to `stop`: what the callback is told, whether the
-- coordinator was stopped, and the state
unfoldable pub shutdown :
    ℕ → UnitOutcome → WorkerShutdownState → Outcome Bool String × Bool × WorkerShutdownState
unfolding set_shutdown set_start_time on_stopped
shutdown now stopped s =
    let (won, s') = set_shutdown s in
    if won
    then (on_stopped stopped, true, (set_start_time now s').1)
    else (success false, false, s')

-- the callback of `leaseCoordinator->start` in `initialize`: the error's message alone is kept
unfoldable pub initialize : UnitOutcome → UnitOutcome
initialize (failure e) = failure e
initialize (success u) = success tt

-- `runProcessLoop` does nothing yet
unfoldable pub run_process_loop : UnitOutcome
run_process_loop = success tt

-- what other threads do between two reads of `shutdown_`: at `some now`, one calls `shutdown`
unfoldable pub meanwhile : Option ℕ → WorkerShutdownState → WorkerShutdownState
unfolding shutdown
meanwhile none s = s
meanwhile (some now) s = let (told, stopped, s') = shutdown now (success tt) s in s'

-- `processUntilStopped`, which calls itself from the callback; `others i` comes before its read of
-- `shutdown_` in round `i`, and the fuel is the depth of the calls
unfoldable pub process_until_stopped :
    ℕ → (ℕ → Option ℕ) → ℕ → WorkerShutdownState → Ends (UnitOutcome × WorkerShutdownState)
unfolding run_process_loop meanwhile
process_until_stopped zero others i s = blocks
process_until_stopped (suc fuel) others i s =
    let s' = meanwhile (others i) s in
    elim run_process_loop [
      | failure e ↦ returns (failure e, s')
      | success u ↦
          if s'.shutdown
          then returns (success tt, s')
          else process_until_stopped fuel others (suc i) s'
    ]

-- `finalShutdown`, whose DCHECK wants to be the first
unfoldable pub final_shutdown : WorkerShutdownState → Option WorkerShutdownState
unfolding set_shutdown_complete
final_shutdown s = let (won, s') = set_shutdown_complete s in if won then some s' else none

-- what the callback of `run` is told, and the state then
on_processed : Ends (UnitOutcome × WorkerShutdownState) → Ends (UnitOutcome × WorkerShutdownState)
unfolding final_shutdown
on_processed aborts = aborts
on_processed blocks = blocks
on_processed (returns (r, s)) = elim (final_shutdown s) [
  | none ↦ aborts
  | some s' ↦ returns (r, s')
]

on_initialized :
    ℕ
    → (ℕ → Option ℕ)
    → UnitOutcome
    → WorkerShutdownState
    → Ends (UnitOutcome × WorkerShutdownState)
unfolding on_processed process_until_stopped
on_initialized fuel others (failure e) s = returns (failure e, s)
on_initialized fuel others (success u) s = on_processed (process_until_stopped fuel others 0 s)

-- `run`, with what the coordinator answers to `start`
unfoldable pub run :
    ℕ
    → (ℕ → Option ℕ)
    → UnitOutcome
    → WorkerShutdownState
    → Ends (UnitOutcome × WorkerShutdownState)
unfolding on_initialized initialize
run fuel others started s =
    if s.shutdown
    then returns (failure "worker is shutting down", s)
    else on_initialized fuel others (initialize started) s
