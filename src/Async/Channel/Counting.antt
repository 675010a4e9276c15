-- ===== src/Async/Channel/Counting.antt =====
-- A send adds its message once, and a drain takes out what it works on.
use kclpp.Prelude.{
  ℕ, zero, suc, ◌+◌, ◌≡◌, refl, Bool, true, false, Option, none, some, List, [], ◌∷◌, ◌++◌, inl,
  inr, arith, if◌then◌else◌, List-cases, Bool-cases, Option-cases, ◌&&◌,
}
use kclpp.Outcome.{Outcome, success, failure, Outcome-cases}
use kclpp.Async.EventFd.{Os, EventFd, EventFdError, read, write}
use kclpp.Async.Queue.{Queue, IsFifo, count_if}
use kclpp.Async.Channel.{
  EventChannel, try_send, on_enqueue, on_signal, spsc_try_read, on_spsc_read, take_message, drain,
  drain_data_channel, quiet,
}
use kclpp.Async.Channel.Sending.{is_enqueued}

pub count_if-append {ℓ} :
    {A : Type ℓ} (p : A → Bool) (xs ys : List A)
    → count_if p (xs ++ ys) ≡ count_if p xs + count_if p ys
count_if-append p [] ys = omega arith
count_if-append p (x ∷ xs) ys = omega (arith, count_if-append p xs ys)

module _ {K T Q : Type 0} (os : Os K) (queue : Queue T Q) (items : Q → List T)
    (fifo : IsFifo queue items) (p : T → Bool) where
  abbrev held : EventChannel K Q → ℕ
  held c = count_if p (items c.queue)

  on_signal-enqueued :
      (w : Outcome (Unit {0}) EventFdError × EventFd K) (q : Q)
      → (is_enqueued (on_signal os queue w q).0 ≡ true) × ((on_signal os queue w q).1.queue ≡ q)
  unfolding on_signal
  on_signal-enqueued (success u, efd) q = (refl, refl)
  on_signal-enqueued (failure e, efd) q = (refl, refl)

  pub try_send-count :
      (x : T) (c : EventChannel K Q)
      → held (try_send os queue x c).1
        ≡ held c + (if is_enqueued (try_send os queue x c).0 && p x then 1 else 0)
  unfolding try_send on_enqueue
  try_send-count x c =
      let q = (queue.try_enqueue x c.queue).1 in
      elim (Bool-cases (queue.try_enqueue x c.queue).0) [
        | inl took ↦
            let e : queue.try_enqueue x c.queue ≡ (true, q) = rw took refl in
            let h = on_signal-enqueued (write os 1 c.event_fd) q in
            rw e (
              ground (
                arith,
                h.0,
                h.1,
                fifo.enqueued x c.queue q e,
                count_if-append p (items c.queue) (x ∷ []),
              ))
        | inr kept ↦
            let e : queue.try_enqueue x c.queue ≡ (false, q) = rw kept refl in
            ground (arith, e, fifo.refused x c.queue q e)
      ]

  -- what a read takes, in numbers
  abbrev taken : Option T → ℕ
  taken none = 0
  taken (some x) = if p x then 1 else 0

  abbrev read_count : Outcome (Option T) EventFdError → ℕ
  read_count (failure e) = 0
  read_count (success o) = taken o

  dequeue-count :
      (q q' : Q) (o : Option T)
      → queue.try_dequeue q ≡ (o, q')
      → count_if p (items q) ≡ taken o + count_if p (items q')
  dequeue-count q q' o e = elim (List-cases (items q)) [
    | inl h ↦ let (q'', e', h') = fifo.drained q h in ground (arith, h, h', e, e')
    | inr (x, xs, h) ↦ let (q'', e', h') = fifo.dequeued x xs q h in ground (arith, h, h', e, e')
  ]

  on_spsc_read-count :
      (r : Outcome ℕ EventFdError × EventFd K) (q : Q)
      → count_if p (items q)
        ≡ read_count (on_spsc_read os queue r q).0 + held (on_spsc_read os queue r q).1
  unfolding on_spsc_read take_message
  on_spsc_read-count (failure e, efd) q = omega arith
  on_spsc_read-count (success n, efd) q =
      dequeue-count q (queue.try_dequeue q).1 (queue.try_dequeue q).0 refl

  spsc_try_read-count :
      (c c' : EventChannel K Q) (r : Outcome (Option T) EventFdError)
      → spsc_try_read os queue c ≡ (r, c')
      → held c ≡ read_count r + held c'
  unfolding spsc_try_read
  spsc_try_read-count c c' r e = ground (arith, e, on_spsc_read-count (read os c.event_fd) c.queue)

  module _ {W : Type 0} (work : T → W → W) (logged : W → List T)
      (logs : (m : T) (w : W) → logged (work m w) ≡ m ∷ logged w) where
    drain-count :
        (fuel : ℕ) (c c' : EventChannel K Q) (w w' : W)
        → drain (spsc_try_read os queue) (quiet work) fuel c w ≡ some (c', w')
        → held c + count_if p (logged w) ≡ held c' + count_if p (logged w')
    unfolding drain
    drain-count zero c c' w w' e = ground (arith, e)
    drain-count (suc fuel) c c' w w' e =
        let n =
          spsc_try_read-count c (spsc_try_read os queue c).1 (spsc_try_read os queue c).0 refl in
        elim (Outcome-cases (spsc_try_read os queue c).0) [
          | inr (f, h) ↦ ground (arith, e, h, n)
          | inl (o, h) ↦ elim (Option-cases o) [
            | inl h' ↦ ground (arith, e, h, h', n)
            | inr (m, h') ↦
                let rest = drain-count fuel (spsc_try_read os queue c).1 c' (work m w) w' in
                ground (arith, e, h, h', n, rest, logs m w)
          ]
        ]

    -- what leaves the channel is logged
    pub drain_data_channel-count :
        (fuel : ℕ) (c c' : EventChannel K Q) (w w' : W)
        → drain_data_channel os queue work fuel c w ≡ some (c', w')
        → held c + count_if p (logged w) ≡ held c' + count_if p (logged w')
    unfolding drain_data_channel
    drain_data_channel-count = drain-count
