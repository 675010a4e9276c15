-- ===== src/Async/Channel/Sending.antt =====
-- What a send does to the queue and to the counter of a channel.
use kclpp.Prelude.{
  ℕ, ◌+◌, ◌<◌, ◌≡◌, refl, Bool, true, false, List, [], ◌∷◌, ◌++◌, ◌⊎◌, inl, inr, arith, ltb,
  Bool-cases,
}
use kclpp.Outcome.{Outcome, success, failure, Outcome-cases}
use kclpp.Async.Descriptor.{get, good}
use kclpp.Async.EventFd.{Os, EventFd, EventFdError, IsEventfd, write, write_error, would_block}
use kclpp.Async.Queue.{Queue, IsFifo}
use kclpp.Async.Channel.{
  EventChannel, QueueError, partial_write_error, queue_full, try_send, on_enqueue,
}

-- whether the message of a send is in the queue after it
abbrev pub is_enqueued : Outcome (Unit {0}) QueueError → Bool
is_enqueued (success u) = true
is_enqueued (failure (partial_write_error s)) = true
is_enqueued (failure (queue_full s)) = false

module _ {K T Q : Type 0} (os : Os K) (queue : Queue T Q) (limit : ℕ) (count : K → ℕ)
    (items : Q → List T) (eventfd : IsEventfd os limit count) (fifo : IsFifo queue items) where
  -- a write signals, or the counter is full and so not 0
  pub write-signals :
      (efd : EventFd K)
      → 1 < limit
      → 0 < efd.descriptor.fd
      → (r : Outcome (Unit {0}) EventFdError) × (k : K) × (write os 1 efd
          ≡ (r, record efd { counter = k }))
        × (0 < count k)
  unfolding write get good
  write-signals efd l o = elim (Bool-cases (ltb (count efd.counter + 1) limit)) [
    | inl fits ↦
        let (k, e, h) = eventfd.write_fits efd.counter (ground (arith, fits)) in
        (success tt, k, ground (arith, e), omega (arith, h))
    | inr full ↦
        let (k, e, h) = eventfd.write_full efd.counter (ground (arith, full)) in
        (
          failure (write_error (os.strerror would_block)),
          k,
          ground (arith, e),
          ground (arith, h, full),
        )
  ]

  pub try_send-enqueued :
      (x : T) (c : EventChannel K Q) (q : Q)
      → 1 < limit
      → 0 < c.event_fd.descriptor.fd
      → queue.try_enqueue x c.queue ≡ (true, q)
      → (r : Outcome (Unit {0}) QueueError) × (c' : EventChannel K Q) × (try_send os queue x c
          ≡ (r, c'))
        × (is_enqueued r ≡ true)
        × (c'.queue ≡ q)
        × (0 < c'.event_fd.descriptor.fd)
        × (0 < count c'.event_fd.counter)
  unfolding try_send on_enqueue
  try_send-enqueued x c q l o e =
      let (r, k, w, s) = write-signals c.event_fd l o in
      let c' = record c { event_fd = record c.event_fd { counter = k }; queue = q } in
      elim (Outcome-cases r) [
        | inl (u, h) ↦ (success tt, c', ground (arith, e, w, h), refl, refl, o, s)
        | inr (f, h) ↦ (
          failure (partial_write_error "Enqueued message, but could not signal EventFD."),
          c',
          ground (arith, e, w, h),
          refl,
          refl,
          o,
          s,
        )
      ]

  -- A send to an open channel appends its message, also where the counter could not be raised, and
  -- then the counter is not 0; or the queue is full, and what it holds and the counter are the same.
  pub try_send-items :
      (x : T) (c : EventChannel K Q)
      → 1 < limit
      → 0 < c.event_fd.descriptor.fd
      → (r : Outcome (Unit {0}) QueueError) × (c' : EventChannel K Q) × (try_send os queue x c
          ≡ (r, c'))
        × (0 < c'.event_fd.descriptor.fd)
        × (((is_enqueued r ≡ true)
              × (items c'.queue ≡ items c.queue ++ (x ∷ []))
              × (0 < count c'.event_fd.counter))
            ⊎ ((is_enqueued r ≡ false)
                × (items c'.queue ≡ items c.queue)
                × (c'.event_fd ≡ c.event_fd)))
  unfolding try_send on_enqueue
  try_send-items x c l o =
      let q = (queue.try_enqueue x c.queue).1 in
      elim (Bool-cases (queue.try_enqueue x c.queue).0) [
        | inl took ↦
            let e : queue.try_enqueue x c.queue ≡ (true, q) = rw took refl in
            let (r, c', s, i, same, o', n) = try_send-enqueued x c q l o e in
            (r, c', s, o', inl (i, rw same (fifo.enqueued x c.queue q e), n))
        | inr kept ↦
            let e : queue.try_enqueue x c.queue ≡ (false, q) = rw kept refl in
            (
              failure (queue_full "Queue is full."),
              record c { queue = q },
              ground (arith, e),
              o,
              inr (refl, fifo.refused x c.queue q e, refl),
            )
      ]
