-- ===== src/Async/Call/Refusal.antt =====
-- What becomes of a call in the event thread.
use kclpp.Prelude.{
  ℕ, ◌+◌, ◌<◌, ◌≡◌, refl, sym, Bool, true, false, some, List, [], ◌∷◌, inl, inr, arith, Bool-cases,
  ◌&&◌, ◌++◌, ◌∙◌, ap, length, length-append, if◌then◌else◌,
}
use kclpp.Outcome.{Outcome-cases}
use kclpp.Async.EventFd.{Os, IsEventfd}
use kclpp.Async.Queue.{Queue, IsFifo, IsBag, count_if}
use kclpp.Async.Channel.{EventChannel, drain_control_channel, quiet}
use kclpp.Async.Channel.Draining.{drain_control_channel-quiet, work_all, work_all-append}
use kclpp.Async.Channel.Sending.{try_send-items}
use kclpp.Async.Context.{run_in_event_thread, on_sent}
use kclpp.Async.Task.{Task}
use kclpp.Async.Pool.{ThreadPool, try_submit, submitted}
use kclpp.Async.Call.{call_task, submit_call, call_async}

module _ {K K' Q Q' B Request Answer W : Type 0} (os : Os K')
    (control : Queue (ThreadPool K Q B → ThreadPool K Q B) Q') (limit : ℕ) (count : K' → ℕ)
    (items : Q' → List (ThreadPool K Q B → ThreadPool K Q B)) (eventfd : IsEventfd os limit count)
    (fifo : IsFifo control items) (room : 1 < limit) (tasks : Queue (Task Answer W) B)
    (bag : B → List (Task Answer W)) (is_bag : IsBag tasks bag) (invoke : Request → W → Answer × W)
    (id ctx : ℕ) (default_answer : Answer) (request : Request) (callback : Answer → W → W) where
  -- whether the pool takes the task of the call
  unfoldable pub takes : ThreadPool K Q B → Bool
  takes pool =
      pool.running
      && (tasks.try_enqueue (call_task invoke id ctx default_answer request callback)
          pool.work_queue).0

  submit_call-count :
      (p : Task Answer W → Bool) (pool : ThreadPool K Q B)
      → count_if p
          (bag (submit_call invoke tasks id ctx default_answer request callback pool).work_queue)
        ≡ (if takes pool && p (call_task invoke id ctx default_answer request callback)
            then 1
            else 0)
          + count_if p (bag pool.work_queue)
  unfolding takes submit_call try_submit submitted
  submit_call-count p pool =
      let t = call_task invoke id ctx default_answer request callback in
      let b = (tasks.try_enqueue t pool.work_queue).1 in
      elim (Bool-cases (tasks.try_enqueue t pool.work_queue).0) [
        | inl took ↦
            let h : tasks.try_enqueue t pool.work_queue ≡ (true, b) = rw took refl in
            ground (arith, h, is_bag.put_in p t pool.work_queue b h)
        | inr left ↦
            let h : tasks.try_enqueue t pool.work_queue ≡ (false, b) = rw left refl in
            ground (arith, h, is_bag.not_put p t pool.work_queue b h)
      ]

  -- a closure that was sent is the last message of the channel
  run_in_event_thread-items :
      (f : ThreadPool K Q B → ThreadPool K Q B) (c c' : EventChannel K' Q')
      → 0 < c.event_fd.descriptor.fd
      → run_in_event_thread os control f c ≡ some c'
      → (0 < c'.event_fd.descriptor.fd) × (items c'.queue ≡ items c.queue ++ (f ∷ []))
  unfolding run_in_event_thread on_sent
  run_in_event_thread-items f c c' o e =
      let (r, d, s, open_d, h) =
        try_send-items os control limit count items eventfd fifo f c room o in
      elim (Outcome-cases r) [
        | inl (u, ok) ↦
            let same : d ≡ c' = ground (arith, e, s, ok) in
            elim h [
              | inl (took, i, n) ↦ (rw (sym same) open_d, rw (sym same) i)
              | inr (kept, i, n) ↦ ground (arith, ok, kept)
            ]
        | inr (f', bad) ↦ ground (arith, e, s, bad)
      ]

  -- A method whose closure the control channel took, behind whatever closures on the pool wait there,
  -- has its request in the pool that these leave, once, exactly where that pool is running and its
  -- queue has room. Otherwise no task of the call waits anywhere, so its callback is never called, and
  -- the caller is not told. The closures that wait do not send on the channel.
  pub call_async-submitted :
      (p : Task Answer W → Bool) (fuel : ℕ) (c c' : EventChannel K' Q') (pool : ThreadPool K Q B)
      → 0 < c.event_fd.descriptor.fd
      → length (items c.queue) + 1 < fuel
      → call_async invoke os control tasks id ctx default_answer request callback c ≡ some c'
      → let before = work_all (λ g q. g q) (items c.queue) pool in
        (c'' : EventChannel K' Q') × (pool' : ThreadPool K Q B) × (drain_control_channel os control
            (quiet (λ g q. g q))
            fuel
            c'
            pool
          ≡ some (c'', pool'))
        × (items c''.queue ≡ [])
        × (count_if p (bag pool'.work_queue)
            ≡ (if takes before && p (call_task invoke id ctx default_answer request callback)
                then 1
                else 0)
              + count_if p (bag before.work_queue))
  unfolding call_async
  call_async-submitted p fuel c c' pool o enough e =
      let f = submit_call invoke tasks id ctx default_answer request callback in
      let xs = items c.queue in
      let before = work_all (λ g q. g q) xs pool in
      let (open_c, last) = run_in_event_thread-items f c c' o e in
      let (c'', d, open_d, i, z) =
        drain_control_channel-quiet os control limit count items eventfd fifo (λ g q. g q) fuel c'
          (xs ++ (f ∷ [])) pool open_c last (omega (arith, enough, length-append xs (f ∷ []))) in
      (
        c'',
        f before,
        d ∙ ap (λ q. some (c'', q)) (work_all-append (λ g q. g q) xs (f ∷ []) pool),
        i,
        submit_call-count p before,
      )
