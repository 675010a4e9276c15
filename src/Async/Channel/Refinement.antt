-- ===== src/Async/Channel/Refinement.antt =====
-- The control channel as a mailbox: a list to which sends append and that a drain empties.
use kclpp.Prelude.{
  ℕ, ◌+◌, ◌<◌, ◌≡◌, refl, ap, Option, none, some, List, [], ◌∷◌, ◌++◌, inl, inr, arith, length,
  length-append, if◌then◌else◌,
}
use kclpp.Outcome.{Outcome}
use kclpp.Async.EventFd.{Os, IsEventfd}
use kclpp.Async.Queue.{Queue, IsFifo}
use kclpp.Async.Channel.{EventChannel, QueueError, try_send, drain_control_channel, quiet}
use kclpp.Async.Channel.Draining.{work_all, drain_control_channel-quiet}
use kclpp.Async.Channel.Sending.{is_enqueued, try_send-items}

-- `threadsafeTrySendControlMessage` in any thread, or a run of the reader in the event thread
pub data Op (T : Type 0) : Type 0 where
  send : T → Op T
  wake : Op T

module _ {T W : Type 0} (work : T → W → W) where
  -- What the outcomes of the sends say of a mailbox: a message is appended unless its send was
  -- refused, and a wake does the work of all messages in their order.
  unfoldable pub replay :
      List (Op T) → List (Outcome (Unit {0}) QueueError) → List T → W → List T × W
  replay [] outs box w = (box, w)
  replay (send x ∷ ops) [] box w = (box, w)
  replay (send x ∷ ops) (r ∷ outs) box w =
      replay ops outs (if is_enqueued r then box ++ (x ∷ []) else box) w
  replay (wake ∷ ops) outs box w = replay ops outs [] (work_all work box w)

module _ {K T Q W : Type 0} (os : Os K) (queue : Queue T Q) (work : T → W → W) (fuel : ℕ) where
  -- the outcomes of the sends, and the channel and the world after all; `none` where the fuel that
  -- each drain is given ran out
  unfoldable pub run :
      List (Op T)
      → EventChannel K Q
      → W
      → Option (List (Outcome (Unit {0}) QueueError) × EventChannel K Q × W)
  run [] c w = some ([], c, w)
  run (send x ∷ ops) c w =
      let (r, c') = try_send os queue x c in
      elim (run ops c' w) [
        | none ↦ none
        | some p ↦ let (outs, c'', w') = p in some (r ∷ outs, c'', w')
      ]
  run (wake ∷ ops) c w = elim (drain_control_channel os queue (quiet work) fuel c w) [
    | none ↦ none
    | some p ↦ let (c', w') = p in run ops c' w'
  ]

module _ {K T Q W : Type 0} (os : Os K) (queue : Queue T Q) (limit : ℕ) (count : K → ℕ)
    (items : Q → List T) (eventfd : IsEventfd os limit count) (fifo : IsFifo queue items)
    (work : T → W → W) (room : 1 < limit) (fuel : ℕ) where
  -- Any sequence of sends and wakes on an open channel, of messages whose work does not itself send on
  -- the channel, ends, where each drain has more fuel than
  -- there can be messages, and does what the mailbox does by the outcomes of the sends: no accepted
  -- message is lost, none is worked on twice, and all are in order, also where a send could not
  -- signal the reader.
  pub run_refines :
      (ops : List (Op T)) (c : EventChannel K Q) (w : W)
      → 0 < c.event_fd.descriptor.fd
      → length (items c.queue) + length ops < fuel
      → (outs : List (Outcome (Unit {0}) QueueError)) × (c' : EventChannel K Q) × (w' : W) × (run os
            queue work fuel ops c w
          ≡ some (outs, c', w'))
        × (replay work ops outs (items c.queue) w ≡ (items c'.queue, w'))
  unfolding run replay
  run_refines [] c w o enough = ([], c, w, refl, refl)
  run_refines (send x ∷ ops) c w o enough =
      let (r, c', e, o', h) = try_send-items os queue limit count items eventfd fifo x c room o in
      elim h [
        | inl (took, i, n) ↦
            let (outs, c'', w', s, m) =
              run_refines ops c' w o'
                (omega (arith, enough, ap length i, length-append (items c.queue) (x ∷ []))) in
            (r ∷ outs, c'', w', ground (arith, e, s), ground (arith, m, i, took))
        | inr (kept, i, n) ↦
            let (outs, c'', w', s, m) =
              run_refines ops c' w o' (omega (arith, enough, ap length i)) in
            (r ∷ outs, c'', w', ground (arith, e, s), ground (arith, m, i, kept))
      ]
  run_refines (wake ∷ ops) c w o enough =
      let (c', e, o', i, z) =
        drain_control_channel-quiet os queue limit count items eventfd fifo work fuel c
          (items c.queue) w o refl (omega (arith, enough)) in
      let (outs, c'', w', s, m) =
        run_refines ops c' (work_all work (items c.queue) w) o'
          (omega (arith, enough, ap length i)) in
      (outs, c'', w', ground (arith, e, s), ground (arith, m, i))
