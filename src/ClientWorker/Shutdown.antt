-- ===== src/ClientWorker/Shutdown.antt =====
-- The worker's run and its shutdown.
use kclpp.Prelude.{
  ℕ, zero, suc, ◌+◌, ◌≤◌, ◌<◌, ◌≡◌, refl, true, false, arith, not, Bool-cases, inl, inr,
  if◌then◌else◌, Option, none, some, ◌≢◌, ◌∙◌,
}
use kclpp.Outcome.{success, failure}
use kclpp.Async.Worker.{returns, blocks}
use kclpp.ClientWorker.{
  WorkerShutdownState, UnitOutcome, set_shutdown, set_start_time, on_stopped, initialize, meanwhile,
  process_until_stopped, run_process_loop, on_processed, on_initialized, final_shutdown,
  set_shutdown_complete, run, shutdown,
}

meanwhile-shutdown : (now : ℕ) (s : WorkerShutdownState) → (meanwhile (some now) s).shutdown ≡ true
unfolding meanwhile shutdown set_shutdown set_start_time
meanwhile-shutdown now s = ground arith

meanwhile-shutdown_complete :
    (o : Option ℕ) (s : WorkerShutdownState)
    → (meanwhile o s).shutdown_complete ≡ s.shutdown_complete
unfolding meanwhile shutdown set_shutdown set_start_time
meanwhile-shutdown_complete none s = refl
meanwhile-shutdown_complete (some now) s = ground arith

process_until_stopped-waits :
    (fuel : ℕ) (i : ℕ) (s : WorkerShutdownState)
    → s.shutdown ≡ false
    → process_until_stopped fuel (λ j. none) i s ≡ blocks
unfolding process_until_stopped run_process_loop meanwhile
process_until_stopped-waits zero i s h = refl
process_until_stopped-waits (suc fuel) i s h =
    ground (arith, h, process_until_stopped-waits fuel (suc i) s h)

process_until_stopped-ends :
    (fuel : ℕ) (others : ℕ → Option ℕ) (i j now : ℕ) (s : WorkerShutdownState)
    → i ≤ j
    → j < i + fuel
    → others j ≡ some now
    → (s' : WorkerShutdownState) × (process_until_stopped fuel others i s
        ≡ returns (success tt, s'))
      × (s'.shutdown ≡ true)
      × (s'.shutdown_complete ≡ s.shutdown_complete)
unfolding process_until_stopped run_process_loop
process_until_stopped-ends zero others i j now s p q h = absurd (omega arith)
process_until_stopped-ends (suc fuel) others i j now s p q h =
    let next = meanwhile (others i) s in
    let same = meanwhile-shutdown_complete (others i) s in
    elim (Bool-cases next.shutdown) [
      | inl e ↦ (next, rw e refl, e, same)
      | inr e ↦
          let apart : i ≢ j = λ m. ground (arith, e, h, m, meanwhile-shutdown now s) in
          let later : suc i ≤ j = omega (arith, p, apart) in
          let (s', run_on, down, kept) =
            process_until_stopped-ends fuel others (suc i) j now next later (omega (arith, q)) h in
          (s', rw e run_on, down, kept ∙ same)
    ]

-- A worker that is initialized comes back from `run` only by a shutdown that another thread starts. If
-- no other thread does, as where the shutdown would have to come from the same thread, no depth of calls
-- is enough; if one calls `shutdown` before a read of the flag, in a round that the fuel allows, `run`
-- is told success, with the shutdown started and complete.
pub run-initialized :
    (rounds fuel now : ℕ) (others : ℕ → Option ℕ) (s : WorkerShutdownState)
    → s.shutdown ≡ false
    → s.shutdown_complete ≡ false
    → others rounds ≡ some now
    → rounds < fuel
    → (run fuel (λ i. none) (success tt) s ≡ blocks)
      × (s' : WorkerShutdownState) × (run fuel others (success tt) s ≡ returns (success tt, s'))
      × (s'.shutdown ≡ true)
      × (s'.shutdown_complete ≡ true)
unfolding run initialize on_initialized on_processed final_shutdown set_shutdown_complete
run-initialized rounds fuel now others s a b h enough =
    let (s', ended, down, kept) =
      process_until_stopped-ends fuel others 0 rounds now s (omega arith) (omega (arith, enough))
        h in
    (
      ground (arith, a, process_until_stopped-waits fuel 0 s a),
      record s' { shutdown_complete = true },
      ground (arith, a, b, ended, kept),
      down,
      refl,
    )

-- Of any two shutdowns in a row the first one stops the coordinator and hands on its answer, unless a
-- shutdown was started before; the second one stops nothing and says that it did not start one, and it
-- leaves the time of the first. A worker that was shut down refuses to run.
pub shutdown-shutdown :
    (now later fuel : ℕ) (others : ℕ → Option ℕ) (stopped stopped' started : UnitOutcome)
    (s : WorkerShutdownState)
    → (s' : WorkerShutdownState) × (shutdown now stopped s
        ≡ (if s.shutdown then success false else on_stopped stopped, not s.shutdown, s'))
      × (shutdown later stopped' s' ≡ (success false, false, s'))
      × (run fuel others started s' ≡ returns (failure "worker is shutting down", s'))
unfolding shutdown set_shutdown set_start_time run
shutdown-shutdown now later fuel others stopped stopped' started s = elim (Bool-cases s.shutdown) [
  | inl yes' ↦ (s, ground (arith, yes'), ground (arith, yes'), ground (arith, yes'))
  | inr new ↦ (
    record s { shutdown = true; shutdown_start_time = now },
    ground (arith, new),
    ground arith,
    ground arith,
  )
]
