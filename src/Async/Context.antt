-- ===== src/Async/Context.antt =====
-- src/kclpp/async/KCLAsyncContext.cpp and EventContext.cpp: how a thread hands work to the event thread,
-- and how a worker's data channel is bound to it. The control channel and the loops that drain are those
-- of the module Channel; registering an event with libevent is a number kept in the context.
pub mod Setup
use kclpp.Prelude.{
  ℕ, Bool, true, Option, none, some, List, [], ◌∷◌, ◌==◌, get_elem?, set, has_value, if◌then◌else◌,
}
use kclpp.Outcome.{Outcome, success, failure}
use kclpp.Async.EventFd.{Os}
use kclpp.Async.Queue.{Queue}
use kclpp.Async.Channel.{EventChannel, QueueError, try_send, drain_data_channel}

module _ {K T Q : Type 0} (os : Os K) (control : Queue T Q) where
  unfoldable pub on_sent :
      Outcome (Unit {0}) QueueError × EventChannel K Q → Option (EventChannel K Q)
  on_sent (success u, c) = some c
  on_sent (failure e, c) = none

  -- `KCLAsyncContext::runInEventThread`, with the DCHECK on the outcome
  unfoldable pub run_in_event_thread : T → EventChannel K Q → Option (EventChannel K Q)
  unfolding on_sent try_send
  run_in_event_thread work c = on_sent (try_send os control work c)

-- `EventDataChannel`, which the worker and the event thread share
pub record DataChannel (K Q : Type 0) : Type 0 where
  pub sender_id : ℕ
  pub queue : EventChannel K Q
  pub receiver_acked : Bool

-- The data channels that have a read event, by the thread that sends on them. A channel is named by
-- its place among all channels.
pub record EventContext : Type 0 where
  pub data_channels : List (ℕ × ℕ)

unfoldable pub find_bound : ℕ → List (ℕ × ℕ) → Option ℕ
find_bound id [] = none
find_bound id ((j, r) ∷ rs) = if j == id then some r else find_bound id rs

-- `unordered_map::insert` leaves an entry that is there alone; a handle that is not inserted is
-- destroyed with its read event
unfoldable pub insert_handle : ℕ → ℕ → EventContext → EventContext
unfolding find_bound
insert_handle id r ctx =
    if has_value (find_bound id ctx.data_channels)
    then ctx
    else record ctx { data_channels = (id, r) ∷ ctx.data_channels }

module _ {K T Q W : Type 0} (os : Os K) (queue : Queue T Q) (work : T → W → W) where
  drained :
      ℕ
      → List (DataChannel K Q)
      → DataChannel K Q
      → Option (EventChannel K Q × W)
      → Option (List (DataChannel K Q) × W)
  drained r channels d none = none
  drained r channels d (some (c, w)) = some (set channels r (record d { queue = c }), w)

  -- what `drainDataChannel` does to the channel at place `r`
  unfoldable pub drain_at : ℕ → ℕ → List (DataChannel K Q) → W → Option (List (DataChannel K Q) × W)
  unfolding drained drain_data_channel
  drain_at fuel r channels w = elim (get_elem? channels r) [
    | none ↦ none
    | some d ↦ drained r channels d (drain_data_channel os queue work fuel d.queue w)
  ]

  -- `bindDataChannel`: a read event, the acknowledgement, the handle, and a first drain
  unfoldable pub bind_data_channel :
      ℕ
      → ℕ
      → EventContext
      → List (DataChannel K Q)
      → W
      → Option (EventContext × List (DataChannel K Q) × W)
  unfolding insert_handle drain_at
  bind_data_channel fuel r ctx channels w = elim (get_elem? channels r) [
    | none ↦ none
    | some d ↦ elim (drain_at fuel r (set channels r (record d { receiver_acked = true })) w) [
      | none ↦ none
      | some p ↦ let (channels', w') = p in some (insert_handle d.sender_id r ctx, channels', w')
    ]
  ]
