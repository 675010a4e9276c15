-- ===== src/Async/Channel/Draining.antt =====
-- What a drain leaves behind: the control channel is emptied, the data channel is not.
use kclpp.Prelude.{
  ℕ, zero, suc, ◌<◌, ◌≡◌, refl, ◌∙◌, Option, none, some, List, [], ◌∷◌, ◌⊎◌, inl, inr, arith,
  length, ◌++◌, sum_of, sum_of-append, ap,
}
use kclpp.Outcome.{Outcome, success, failure}
use kclpp.Async.Descriptor.{good, get}
use kclpp.Async.EventFd.{Os, EventFd, EventFdError, IsEventfd, read, not_ready}
use kclpp.Async.Queue.{Queue, IsFifo}
use kclpp.Async.Channel.{
  EventChannel, spsc_try_read, mpsc_try_read, take_message, drain, drain_data_channel,
  drain_control_channel, quiet,
}

-- the work of messages in their order
abbrev pub work_all : {T W : Type 0} → (T → W → W) → List T → W → W
work_all work [] w = w
work_all work (m ∷ ms) w = work_all work ms (work m w)

pub work_all-append :
    {T W : Type 0} (work : T → W → W) (xs ys : List T) (w : W)
    → work_all work (xs ++ ys) w ≡ work_all work ys (work_all work xs w)
work_all-append work [] ys w = refl
work_all-append work (x ∷ xs) ys w = work_all-append work xs ys (work x w)

ℕ-cases : (n : ℕ) → (n ≡ 0) ⊎ ((m : ℕ) × (n ≡ suc m))
ℕ-cases zero = inl refl
ℕ-cases (suc m) = inr (m, refl)

-- one round of the loop
module _ {C T W : Type 0} (try_read : C → Outcome (Option T) EventFdError × C)
    (work : T → C → W → C × W) (fuel : ℕ) (c c' : C) (w : W) where
  drain-none : try_read c ≡ (success none, c') → drain try_read work (suc fuel) c w ≡ some (c', w)
  unfolding drain
  drain-none e = ground (arith, e)

  drain-some :
      (m : T)
      → try_read c ≡ (success (some m), c')
      → drain try_read work (suc fuel) c w
        ≡ drain try_read work fuel (work m c' w).0 (work m c' w).1
  unfolding drain
  drain-some m e = ground (arith, e)

module _ {K T Q : Type 0} (os : Os K) (queue : Queue T Q) (limit : ℕ) (count : K → ℕ)
    (items : Q → List T) (eventfd : IsEventfd os limit count) (fifo : IsFifo queue items) where
  -- a count that is there is taken
  read-ready :
      (efd : EventFd K) (n : ℕ)
      → 0 < efd.descriptor.fd
      → count efd.counter ≡ suc n
      → (k : K) × (read os efd ≡ (success (suc n), record efd { counter = k })) × (count k ≡ 0)
  unfolding read get good
  read-ready efd n open_fd h =
      let (k, e, z) = eventfd.read_ready efd.counter n h in (k, ground (arith, e), z)

  read-empty :
      (efd : EventFd K)
      → 0 < efd.descriptor.fd
      → count efd.counter ≡ 0
      → (k : K) × (read os efd ≡ (failure (not_ready "NotReady"), record efd { counter = k }))
        × (count k ≡ 0)
  unfolding read get good
  read-empty efd open_fd h =
      let (k, e, z) = eventfd.read_empty efd.counter h in (k, ground (arith, e), z)

  -- A descriptor that is open and stays the same one.
  abbrev IsOpen : EventChannel K Q → Type 0
  IsOpen c = 0 < c.event_fd.descriptor.fd

  -- Whatever the count, a read of the control channel clears it and goes on to the queue.
  mpsc_try_read-take :
      (c : EventChannel K Q)
      → IsOpen c
      → (k : K) × (mpsc_try_read os queue c
          ≡ take_message os queue (record c.event_fd { counter = k }) c.queue)
        × (count k ≡ 0)
  unfolding mpsc_try_read
  mpsc_try_read-take c o = elim (ℕ-cases (count c.event_fd.counter)) [
    | inl none_ready ↦
        let (k, e, z) = read-empty c.event_fd o none_ready in (k, ground (arith, e), z)
    | inr (n, ready) ↦ let (k, e, z) = read-ready c.event_fd n o ready in (k, ground (arith, e), z)
  ]

  mpsc_try_read-some :
      (c : EventChannel K Q) (x : T) (xs : List T)
      → IsOpen c
      → items c.queue ≡ x ∷ xs
      → (c' : EventChannel K Q) × (mpsc_try_read os queue c ≡ (success (some x), c'))
        × IsOpen c'
        × (items c'.queue ≡ xs)
  unfolding take_message
  mpsc_try_read-some c x xs o h =
      let (q, e, r) = fifo.dequeued x xs c.queue h in
      let (k, e', z) = mpsc_try_read-take c o in
      (
        record { event_fd = record c.event_fd { counter = k }; queue = q },
        ground (arith, e, e'),
        o,
        r,
      )

  mpsc_try_read-none :
      (c : EventChannel K Q)
      → IsOpen c
      → items c.queue ≡ []
      → (c' : EventChannel K Q) × (mpsc_try_read os queue c ≡ (success none, c'))
        × IsOpen c'
        × (items c'.queue ≡ [])
        × (count c'.event_fd.counter ≡ 0)
  unfolding take_message
  mpsc_try_read-none c o h =
      let (q, e, r) = fifo.drained c.queue h in
      let (k, e', z) = mpsc_try_read-take c o in
      (
        record { event_fd = record c.event_fd { counter = k }; queue = q },
        ground (arith, e, e'),
        o,
        r,
        z,
      )

  module _ {W : Type 0} (work : T → EventChannel K Q → W → EventChannel K Q × W) where
    -- The messages of a queue, worked on in their order: the work of one leaves those behind it and
    -- puts the messages that it sends, and that the channel takes, behind them.
    pub data Serves : List T → W → W → Type 0 where
      served : {w : W} → Serves [] w w
      next :
          (m : T) (ms sent : List T) (c c' : EventChannel K Q) (w w₁ w₂ : W)
          → items c.queue ≡ ms
          → work m c w ≡ (c', w₁)
          → items c'.queue ≡ ms ++ sent
          → Serves (ms ++ sent) w₁ w₂
          → Serves (m ∷ ms) w w₂

    -- The drain of the control channel ends, though the work of its messages may send on the channel.
    -- Every message has a weight, and the messages that the channel takes of its work weigh less in
    -- all, so that chains of messages end. With more fuel than the weight of the waiting messages, the
    -- drain has then worked on these and on all that were sent meanwhile, in the order of the queue,
    -- and it leaves the queue and the counter empty, whatever the counter was.
    pub drain_control_channel-all :
        (weight : T → ℕ)
        → ((m : T) (c : EventChannel K Q) (w : W)
            → IsOpen c
            → IsOpen (work m c w).0
              × (sent : List T) × (items (work m c w).0.queue ≡ items c.queue ++ sent)
              × (sum_of weight sent < weight m))
        → (fuel : ℕ) (c : EventChannel K Q) (xs : List T) (w : W) → IsOpen c
        → items c.queue ≡ xs
        → sum_of weight xs < fuel
        → (c' : EventChannel K Q) × (w' : W) × (drain_control_channel os queue work fuel c w
            ≡ some (c', w'))
          × Serves xs w w'
          × IsOpen c'
          × (items c'.queue ≡ [])
          × (count c'.event_fd.counter ≡ 0)
    unfolding drain_control_channel
    drain_control_channel-all weight works zero c xs w o h enough = elim enough [ ]
    drain_control_channel-all weight works (suc fuel) c [] w o h enough =
        let (c', e, o', h', z) = mpsc_try_read-none c o h in
        (c', w, drain-none (mpsc_try_read os queue) work fuel c c' w e, served, o', h', z)
    drain_control_channel-all weight works (suc fuel) c (x ∷ xs) w o h enough =
        let (c₁, e, o₁, h₁) = mpsc_try_read-some c x xs o h in
        let (o₂, sent, h₂, less) = works x c₁ w o₁ in
        let next_items = h₂ ∙ ap (λ l. l ++ sent) h₁ in
        let (c', w', r, served_rest, o', h', z) =
          drain_control_channel-all weight works fuel (work x c₁ w).0 (xs ++ sent) (work x c₁ w).1
            o₂ next_items (omega (arith, enough, less, sum_of-append weight xs sent)) in
        (
          c',
          w',
          drain-some (mpsc_try_read os queue) work fuel c c₁ w x e ∙ r,
          next x xs sent c₁ (work x c₁ w).0 w (work x c₁ w).1 w' h₁ refl next_items served_rest,
          o',
          h',
          z,
        )

  module _ {W : Type 0} (work : T → W → W) where
    pub drain_control_channel-quiet :
        (fuel : ℕ) (c : EventChannel K Q) (xs : List T) (w : W)
        → IsOpen c
        → items c.queue ≡ xs
        → length xs < fuel
        → (c' : EventChannel K Q) × (drain_control_channel os queue (quiet work) fuel c w
            ≡ some (c', work_all work xs w))
          × IsOpen c'
          × (items c'.queue ≡ [])
          × (count c'.event_fd.counter ≡ 0)
    unfolding drain_control_channel
    drain_control_channel-quiet zero c xs w o h enough = elim enough [ ]
    drain_control_channel-quiet (suc fuel) c [] w o h enough =
        let (c', e, o', h', z) = mpsc_try_read-none c o h in
        (c', drain-none (mpsc_try_read os queue) (quiet work) fuel c c' w e, o', h', z)
    drain_control_channel-quiet (suc fuel) c (x ∷ xs) w o h enough =
        let (c', e, o', h') = mpsc_try_read-some c x xs o h in
        let (c'', r, o'', h'', z) =
          drain_control_channel-quiet fuel c' xs (work x w) o' h' (omega (arith, enough)) in
        (c'', drain-some (mpsc_try_read os queue) (quiet work) fuel c c' w x e ∙ r, o'', h'', z)

    -- However many messages are waiting and signalled, a drain of the data channel does the work of
    -- the first one only: its first read clears the counter, and its second read then fails. The
    -- other messages stay in the queue, and the counter no longer tells of them.
    pub drain_data_channel-one :
        (fuel n : ℕ) (c : EventChannel K Q) (x : T) (xs : List T) (w : W)
        → IsOpen c
        → count c.event_fd.counter ≡ suc n
        → items c.queue ≡ x ∷ xs
        → (c' : EventChannel K Q) × (drain_data_channel os queue work (suc (suc fuel)) c w
            ≡ some (c', work x w))
          × (items c'.queue ≡ xs)
          × (count c'.event_fd.counter ≡ 0)
    unfolding drain_data_channel drain spsc_try_read
    drain_data_channel-one fuel n c x xs w o ready h =
        let (q, e, r) = fifo.dequeued x xs c.queue h in
        let (k, e', z) = read-ready c.event_fd n o ready in
        let (k', e'', z') = read-empty (record c.event_fd { counter = k }) o z in
        (
          record { event_fd = record c.event_fd { counter = k' }; queue = q },
          ground (arith, e, e', e''),
          r,
          z',
        )

    -- A data channel whose counter is 0 gives nothing, whatever it holds.
    pub drain_data_channel-stranded :
        (fuel : ℕ) (c : EventChannel K Q) (w : W)
        → IsOpen c
        → count c.event_fd.counter ≡ 0
        → (c' : EventChannel K Q) × (drain_data_channel os queue work (suc fuel) c w ≡ some (c', w))
          × (c'.queue ≡ c.queue)
          × (count c'.event_fd.counter ≡ 0)
    unfolding drain_data_channel drain spsc_try_read
    drain_data_channel-stranded fuel c w o h =
        let (k, e, z) = read-empty c.event_fd o h in
        (record c { event_fd = record c.event_fd { counter = k } }, ground (arith, e), refl, z)
