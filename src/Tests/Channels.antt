-- ===== src/Tests/Channels.antt =====
-- Channels of numbers, and one with a message in it.
use kclpp.Prelude.{
  zero, suc, ◌+◌, ◌∙◌, sym, inl, inr, sum_of, ℕ, ◌<◌, ◌≡◌, refl, some, List, [], ◌∷◌, ◌++◌, arith,
}
use kclpp.Outcome.{Outcome}
use kclpp.Async.Channel.{
  EventChannel, QueueError, try_send, drain_control_channel, drain_data_channel,
}
use kclpp.Async.Channel.Draining.{Serves, drain_control_channel-all, drain_data_channel-one}
use mathlib.Core.List.{append-nil}
use kclpp.Async.Channel.Sending.{try_send-items}
use kclpp.Async.Channel.Refinement.{Op, send, wake, run, replay, run_refines}
use kclpp.Async.Channel.Wakeup.{
  Threads, waiting, outside, Reaches, here, further, enqueue, signal, no_lost_wakeup,
}
use kclpp.Tests.Async.{os, limit, same, self, os-IsEventfd, list_queue, list_queue-IsFifo}

abbrev pub note : ℕ → List ℕ → List ℕ
note x w = w ++ (x ∷ [])

abbrev pub channel : ℕ → List ℕ → EventChannel ℕ (List ℕ)
channel n q = record {
  event_fd = record { descriptor = record { fd = 3 }; counter = n };
  queue = q;
}

abbrev ops : List (Op ℕ)
ops = send 1 ∷ send 2 ∷ wake ∷ send 3 ∷ []

run_refines_example :
    (outs : List (Outcome (Unit {0}) QueueError)) × (c' : EventChannel ℕ (List ℕ)) × (w' : List ℕ)
    × (run os list_queue note 9 ops (channel 0 []) [] ≡ some (outs, c', w'))
    × (replay note ops outs [] [] ≡ (c'.queue, w'))
run_refines_example =
    run_refines os list_queue limit same self os-IsEventfd list_queue-IsFifo note (omega arith) 9
      ops (channel 0 []) [] (omega arith) (omega arith)

-- A message above 0 sends the next lower number on the channel.
abbrev relay : ℕ → EventChannel ℕ (List ℕ) → List ℕ → EventChannel ℕ (List ℕ) × List ℕ
relay zero c w = (c, note 0 w)
relay (suc n) c w = ((try_send os list_queue n c).1, note (suc n) w)

relay_sends :
    (m : ℕ) (c : EventChannel ℕ (List ℕ)) (w : List ℕ)
    → 0 < c.event_fd.descriptor.fd
    → (0 < (relay m c w).0.event_fd.descriptor.fd)
      × (sent : List ℕ) × ((relay m c w).0.queue ≡ c.queue ++ sent)
      × (sum_of (λ n. n + 1) sent < m + 1)
relay_sends zero c w o = (o, [], sym (append-nil c.queue), omega arith)
relay_sends (suc n) c w o =
    let (r, d, s, open_d, h) =
      try_send-items os list_queue limit same self os-IsEventfd list_queue-IsFifo n c (omega arith)
        o in
    elim h [
      | inl (took, i, k) ↦ (rw s open_d, n ∷ [], rw s i, omega arith)
      | inr (kept, i, k) ↦ (rw s open_d, [], rw s (i ∙ sym (append-nil c.queue)), omega arith)
    ]

drain_control_channel-all_example :
    (c' : EventChannel ℕ (List ℕ)) × (w' : List ℕ) × (drain_control_channel os list_queue relay 9
        (channel 0 (2 ∷ 1 ∷ []))
        []
      ≡ some (c', w'))
    × Serves os list_queue limit same self os-IsEventfd list_queue-IsFifo relay (2 ∷ 1 ∷ []) [] w'
    × (0 < c'.event_fd.descriptor.fd)
    × (c'.queue ≡ [])
    × (c'.event_fd.counter ≡ 0)
drain_control_channel-all_example =
    drain_control_channel-all os list_queue limit same self os-IsEventfd list_queue-IsFifo relay
      (λ n. n + 1) relay_sends 9 (channel 0 (2 ∷ 1 ∷ [])) (2 ∷ 1 ∷ []) [] (omega arith) refl
      (omega arith)

drain_data_channel-one_example :
    (c' : EventChannel ℕ (List ℕ)) × (drain_data_channel os list_queue note 9
        (channel 3 (7 ∷ 8 ∷ 9 ∷ []))
        []
      ≡ some (c', 7 ∷ []))
    × (c'.queue ≡ 8 ∷ 9 ∷ [])
    × (c'.event_fd.counter ≡ 0)
drain_data_channel-one_example =
    drain_data_channel-one os list_queue limit same self os-IsEventfd list_queue-IsFifo note 7 2
      (channel 3 (7 ∷ 8 ∷ 9 ∷ [])) 7 (8 ∷ 9 ∷ []) [] (omega arith) refl refl

abbrev threads : ℕ → List ℕ → Threads ℕ (List ℕ)
threads n q = record { channel = channel n q; producer = outside; consumer = waiting }

one_sent : Reaches os list_queue same (threads 0 []) (threads 1 (7 ∷ []))
unfolding kclpp.Async.EventFd.write
one_sent = further (further here (enqueue 7 (7 ∷ []) refl refl)) (signal refl)

no_lost_wakeup_example : 0 < same 1
no_lost_wakeup_example =
    no_lost_wakeup os list_queue limit same self os-IsEventfd list_queue-IsFifo (omega arith)
      (threads 0 []) (threads 1 (7 ∷ [])) (omega arith) refl one_sent refl refl
      (λ e. ground (arith, e))
