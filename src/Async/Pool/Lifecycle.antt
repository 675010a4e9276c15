-- ===== src/Async/Pool/Lifecycle.antt =====
-- Starting, stopping and destroying a pool.
use mathlib.Core.List.{append-nil, append_assoc}
use kclpp.Prelude.{
  ℕ, zero, suc, ◌<◌, ◌≡◌, refl, ap, true, false, some, List, [], ◌∷◌, ◌++◌, arith, All, length,
  get_elem?, set,
}
use kclpp.Outcome.{success}
use kclpp.Async.Worker
use kclpp.Async.Worker.{
  Ends, returns, aborts, blocks, joinable, hanging, joined, Worker, new_worker,
}
use kclpp.Async.Pool.{
  ThreadPool, start_new, stop_workers, join_workers, destroy_workers, start_workers, start,
  trigger_stop, join, join_stopped, stop_join, destroy,
}

module _ {K Q : Type 0} where
  abbrev pub IsLive : Worker K Q → Type 0
  IsLive w = (w.running ≡ true) × (w.thread ≡ some joinable)

  abbrev pub IsStopped : Worker K Q → Type 0
  IsStopped w = (w.running ≡ false) × (w.thread ≡ some joinable)

  abbrev pub IsJoined : Worker K Q → Type 0
  IsJoined w = (w.running ≡ false) × (w.thread ≡ some joined)

  -- `n` new workers, in front of which stand those that were there
  start_new-live :
      (n : ℕ) (ws : List (Worker K Q))
      → (vs : List (Worker K Q)) × (start_new n ws ≡ returns (ws ++ vs))
        × All IsLive vs
        × (length vs ≡ n)
  unfolding start_new Worker.start Worker.start_thread
  start_new-live zero ws = ([], rw (append-nil ws, start_new) refl, tt, refl)
  start_new-live (suc n) ws =
      let w : Worker K Q = record new_worker { running = true; thread = some joinable } in
      let (vs, e, l, h) = start_new-live n (ws ++ (w ∷ [])) in
      (w ∷ vs, ground (arith, e, append_assoc ws (w ∷ []) vs), ((refl, refl), l), ap suc h)

  stop_workers-live : (ws : List (Worker K Q)) → All IsLive ws → All IsStopped (stop_workers ws)
  unfolding stop_workers Worker.trigger_stop
  stop_workers-live [] h = tt
  stop_workers-live (w ∷ ws) h =
      ((ground (arith, h.0), ground (arith, h.0)), stop_workers-live ws h.1)

  join_workers-stopped :
      (ws : List (Worker K Q))
      → All IsStopped ws
      → (vs : List (Worker K Q)) × (join_workers ws ≡ returns vs) × All IsJoined vs
  unfolding join_workers Worker.join
  join_workers-stopped [] h = ([], refl, tt)
  join_workers-stopped (w ∷ ws) h =
      let (vs, e, j) = join_workers-stopped ws h.1 in
      (record w { thread = some joined } ∷ vs, ground (arith, e, h.0), ((h.0.0, refl), j))

  destroy_workers-joined :
      (ws : List (Worker K Q)) → All IsJoined ws → destroy_workers ws ≡ returns tt
  unfolding destroy_workers
  destroy_workers-joined [] h = refl
  destroy_workers-joined (w ∷ ws) h = ground (arith, h.0, destroy_workers-joined ws h.1)

  -- no matter which worker comes first
  destroy_workers-stopped :
      (ws : List (Worker K Q))
      → All IsLive ws
      → 0 < length ws
      → destroy_workers (stop_workers ws) ≡ aborts
  unfolding destroy_workers stop_workers Worker.trigger_stop
  destroy_workers-stopped [] h n = elim n [ ]
  destroy_workers-stopped (w ∷ ws) h n = ground (arith, h.0)

  -- a worker that hangs in a round is waited for without end
  join_workers-hanging :
      (ws : List (Worker K Q)) (i : ℕ) (w : Worker K Q)
      → All IsLive ws
      → get_elem? ws i ≡ some w
      → join_workers (stop_workers (set ws i (record w { thread = some hanging }))) ≡ blocks
  unfolding join_workers stop_workers Worker.trigger_stop Worker.join
  join_workers-hanging [] i w h at = ground (arith, at)
  join_workers-hanging (v ∷ ws) zero w h at = ground (arith, at, h.0)
  join_workers-hanging (v ∷ ws) (suc i) w h at =
      ground (arith, h.0, join_workers-hanging ws i w h.1 at)

  -- a worker that was joined before cannot be joined again
  join_workers-again :
      (us vs : List (Worker K Q))
      → All IsJoined us
      → 0 < length us
      → join_workers (stop_workers (us ++ vs)) ≡ aborts
  unfolding join_workers stop_workers Worker.trigger_stop Worker.join
  join_workers-again [] vs h n = elim n [ ]
  join_workers-again (u ∷ us) vs h n = ground (arith, h.0)

module _ {K Q B : Type 0} where
  -- a pool that was started and not stopped, whatever its workers have done since, none of which hangs
  pub record IsUp (p : ThreadPool K Q B) : Type 0 where
    pub running : p.running ≡ true
    pub live : All IsLive p.workers
    pub count : length p.workers ≡ p.num_threads
    pub enough : 0 < p.num_threads

  -- A new pool of at least one thread starts with as many workers, each with its thread running.
  pub start-IsUp :
      (p : ThreadPool K Q B)
      → p.running ≡ false
      → p.workers ≡ []
      → 0 < p.num_threads
      → (p' : ThreadPool K Q B) × (start p ≡ returns (success tt, p'))
        × IsUp p'
        × (p'.num_threads ≡ p.num_threads)
        × (p'.work_queue ≡ p.work_queue)
  unfolding start start_workers
  start-IsUp p r w n =
      let (vs, e, l, h) = start_new-live p.num_threads p.workers in
      (
        record p { running = true; workers = vs },
        ground (arith, e, r, w, n),
        record { running = refl; live = l; count = h; enough = n },
        refl,
        refl,
      )

  -- Stopping a pool that is up, no worker of which hangs in a round, and waiting for it returns, with
  -- every worker stopped and its thread joined, and the pool can then be destroyed; so can one that is
  -- still up. Where any one worker hangs in a round, neither returns. After a stop without the wait,
  -- the destructor does not wait either, and a thread that was not joined ends the process.
  pub stop_join-IsUp :
      (p : ThreadPool K Q B)
      → IsUp p
      → (p' : ThreadPool K Q B) × (stop_join p ≡ returns (success tt, p'))
        × (p'.running ≡ false)
        × All IsJoined p'.workers
        × (destroy p' ≡ returns tt)
        × (destroy p ≡ returns tt)
        × (destroy (trigger_stop p).1 ≡ aborts)
        × ((i : ℕ) (w : Worker K Q)
            → get_elem? p.workers i ≡ some w
            → let q = record p { workers = set p.workers i (record w { thread = some hanging }) } in
              (stop_join q ≡ blocks) × (destroy q ≡ blocks))
  unfolding stop_join trigger_stop destroy join join_stopped
  stop_join-IsUp p up =
      let stopped = stop_workers-live p.workers up.live in
      let (ws, e, j) = join_workers-stopped (stop_workers p.workers) stopped in
      let p' = record p { running = false; workers = ws } in
      (
        p',
        ground (arith, e, up.running),
        refl,
        j,
        ground (arith, destroy_workers-joined ws j),
        ground (arith, e, up.running, destroy_workers-joined ws j),
        ground (
          arith,
          up.running,
          destroy_workers-stopped p.workers up.live (omega (arith, up.count, up.enough)),
        ),
        λ i w at.
            let stuck = join_workers-hanging p.workers i w up.live at in
            (ground (arith, up.running, stuck), ground (arith, up.running, stuck)),
      )

  -- A pool whose workers were all joined can be started again, since the outcome is a success, but it
  -- keeps the old workers: the next stop that waits ends the process.
  pub stop_join-again :
      (p : ThreadPool K Q B)
      → p.running ≡ false
      → All IsJoined p.workers
      → 0 < length p.workers
      → 0 < p.num_threads
      → (p' : ThreadPool K Q B) × (start p ≡ returns (success tt, p')) × (stop_join p' ≡ aborts)
  unfolding start start_workers stop_join trigger_stop join join_stopped
  stop_join-again p r j l n =
      let (vs, e, live, h) = start_new-live p.num_threads p.workers in
      (
        record p { running = true; workers = p.workers ++ vs },
        ground (arith, e, r, n),
        ground (arith, join_workers-again p.workers vs j l),
      )
