-- ===== src/Async/Channel.antt =====
-- include/kclpp/async/queues: `SPSCEventChannel` and `MPSCEventChannel`, a queue with an eventfd that
-- tells the reader of its items, and the loops of src/kclpp/async/EventContext.cpp that drain them.
-- The two channels differ in `tryRead` alone: the lock of `MPSCEventChannel` makes a send one step.
pub mod Draining
pub mod Sending
pub mod Refinement
pub mod Wakeup
pub mod Counting
use text.Mathlib.Text.{starts_with}
use kclpp.Prelude.{ℕ, zero, suc, String, Bool, true, false, Option, none, some, if◌then◌else◌}
use kclpp.Outcome.{Outcome, success, failure}
use kclpp.Async.EventFd.{Os, EventFd, EventFdError, what, read, write}
use kclpp.Async.Queue.{Queue}

pub data QueueError : Type 0 where
  partial_write_error queue_full : String → QueueError

pub record EventChannel (K Q : Type 0) : Type 0 where
  pub event_fd : EventFd K
  pub queue : Q

module _ {K T Q : Type 0} (os : Os K) (queue : Queue T Q) where
  on_signal :
      Outcome (Unit {0}) EventFdError × EventFd K
      → Q
      → Outcome (Unit {0}) QueueError × EventChannel K Q
  on_signal (success u, efd) q = (success tt, record { event_fd = efd; queue = q })
  on_signal (failure e, efd) q = (
    failure (partial_write_error "Enqueued message, but could not signal EventFD."),
    record { event_fd = efd; queue = q },
  )

  on_enqueue : Bool × Q → EventChannel K Q → Outcome (Unit {0}) QueueError × EventChannel K Q
  unfolding on_signal write
  on_enqueue (true, q) c = on_signal (write os 1 c.event_fd) q
  on_enqueue (false, q) c = (failure (queue_full "Queue is full."), record c { queue = q })

  -- `trySend`; `tryLockAndSend` does the same under its lock
  unfoldable pub try_send : T → EventChannel K Q → Outcome (Unit {0}) QueueError × EventChannel K Q
  unfolding on_enqueue
  try_send msg c = on_enqueue (queue.try_enqueue msg c.queue) c

  -- the answer `some x` stands for `true` with the message in `result`
  unfoldable pub take_message : EventFd K → Q → Outcome (Option T) EventFdError × EventChannel K Q
  take_message efd q =
      let (m, q') = queue.try_dequeue q in (success m, record { event_fd = efd; queue = q' })

  on_spsc_read :
      Outcome ℕ EventFdError × EventFd K → Q → Outcome (Option T) EventFdError × EventChannel K Q
  unfolding take_message
  on_spsc_read (failure e, efd) q = (failure e, record { event_fd = efd; queue = q })
  on_spsc_read (success n, efd) q = take_message efd q

  -- `SPSCEventChannel::tryRead`
  unfoldable pub spsc_try_read :
      EventChannel K Q → Outcome (Option T) EventFdError × EventChannel K Q
  unfolding on_spsc_read read
  spsc_try_read c = on_spsc_read (read os c.event_fd) c.queue

  on_mpsc_read :
      Outcome ℕ EventFdError × EventFd K → Q → Outcome (Option T) EventFdError × EventChannel K Q
  unfolding take_message
  on_mpsc_read (failure e, efd) q =
      if starts_with (what e) "NotReady"
      then take_message efd q
      else (failure e, record { event_fd = efd; queue = q })
  on_mpsc_read (success n, efd) q = take_message efd q

  -- `MPSCEventChannel::tryRead`
  unfoldable pub mpsc_try_read :
      EventChannel K Q → Outcome (Option T) EventFdError × EventChannel K Q
  unfolding on_mpsc_read read
  mpsc_try_read c = on_mpsc_read (read os c.event_fd) c.queue

-- The loop of the two drains: read until there is no message, and do the work of each, which may send on
-- the channel. `none` means that the fuel ran out. Every message has its work, as `DCHECK(!!message.work)` wants.
module _ {C T W : Type 0} (try_read : C → Outcome (Option T) EventFdError × C)
    (work : T → C → W → C × W) where
  unfoldable pub drain : ℕ → C → W → Option (C × W)
  drain zero c w = none
  drain (suc fuel) c w =
      let (r, c') = try_read c in
      elim r [
        | failure e ↦ some (c', w)
        | success m ↦ elim m [
          | none ↦ some (c', w)
          | some m' ↦ let (c'', w') = work m' c' w in drain fuel c'' w'
        ]
      ]

-- a work that does not send on the channel
abbrev pub quiet : {C T W : Type 0} → (T → W → W) → T → C → W → C × W
quiet work m c w = (c, work m w)

module _ {K T Q W : Type 0} (os : Os K) (queue : Queue T Q) where
  -- `EventContext::drainDataChannel`; a worker's thread alone sends on a data channel
  unfoldable pub drain_data_channel :
      (T → W → W) → ℕ → EventChannel K Q → W → Option (EventChannel K Q × W)
  unfolding drain
  drain_data_channel work fuel c w = drain (spsc_try_read os queue) (quiet work) fuel c w

  -- `EventContext::drainControlChannel`
  unfoldable pub drain_control_channel :
      (T → EventChannel K Q → W → EventChannel K Q × W)
      → ℕ
      → EventChannel K Q
      → W
      → Option (EventChannel K Q × W)
  unfolding drain
  drain_control_channel work fuel c w = drain (mpsc_try_read os queue) work fuel c w
