-- ===== src/Async/Call/Answers.antt =====
-- A call that the pool accepted is answered like a direct call.
use kclpp.Prelude.{
  ℕ, suc, ◌-◌, ◌∙◌, ◌<◌, ◌≡◌, refl, ap, true, none, some, List, [], ◌∷◌, inl, inr, arith,
}
use kclpp.Outcome.{success}
use kclpp.Async.EventFd.{Os, IsEventfd}
use kclpp.Async.Queue.{Queue, IsFifo}
use kclpp.Async.Channel.{EventChannel, try_send, drain_data_channel}
use kclpp.Async.Channel.Draining.{drain_data_channel-one}
use kclpp.Async.Channel.Sending.{try_send-items}
use kclpp.Async.Task.{
  valid, has_good_context, is_good, run, create_from_event_thread, on_success, call_finished,
}
use kclpp.Async.Worker.{
  returns, Worker, Message, deliver, find_channel, set_channel, get_data_channel, run_task,
  work_round, check_ran, sent,
}
use kclpp.Async.Call.{call_work, call_done, call_task}

find_channel-set :
    {K Q : Type 0} (id : ℕ) (c : EventChannel K Q) (cs : List (ℕ × EventChannel K Q))
    → find_channel id (set_channel id c cs) ≡ some c
unfolding find_channel set_channel
find_channel-set id c [] = ground arith
find_channel-set id c ((j, d) ∷ cs) = ground (arith, find_channel-set id c cs)

module _ {K Q Request Answer W : Type 0} (os : Os K) (messages : Queue (Message Answer W) Q)
    (limit : ℕ) (count : K → ℕ) (items : Q → List (Message Answer W))
    (eventfd : IsEventfd os limit count) (fifo : IsFifo messages items) (room : 1 < limit)
    (invoke : Request → W → Answer × W) (id ctx : ℕ) (default_answer : Answer) (request : Request)
    (callback : Answer → W → W) where
  -- the message that the worker sends
  answer_message : W → Message Answer W
  answer_message w = record {
    task = (run (call_task invoke id ctx default_answer request callback) w).1;
    outcome = success tt;
  }

  deliver-answer_message :
      (w w' : W) → deliver (answer_message w) w' ≡ callback (invoke request w).0 w'
  unfolding answer_message deliver on_success call_finished run call_task call_done call_work
      create_from_event_thread
  deliver-answer_message w w' = refl

  module _ (fresh : EventChannel K Q) (worker : Worker K Q) (id_set : 0 < id) where
    run_task-call :
        (world : W)
        → find_channel id worker.data_channels ≡ none
        → run_task os messages
            (returns fresh)
            (call_task invoke id ctx default_answer request callback)
            worker
            world
          ≡ returns (
            sent (try_send os messages (answer_message world) fresh).0,
            record worker {
              data_channels =
                  set_channel id
                    (try_send os messages (answer_message world) fresh).1
                    (set_channel id fresh worker.data_channels);
            },
            (invoke request world).1,
          )
    unfolding run_task get_data_channel answer_message run call_task call_work
        create_from_event_thread
    run_task-call world new = ground (arith, new)

    call_task-valid : valid (call_task invoke id ctx default_answer request callback) ≡ true
    unfolding valid has_good_context is_good call_task create_from_event_thread
    call_task-valid = ground arith

    -- A worker that runs the task of a call, and whose round does not end the process, has made the
    -- call once, with the request. The first drain of the channel that it sent the answer on, however
    -- much later, calls the callback once, with the answer, and leaves no message. It is assumed that
    -- the worker had no channel to the calling thread yet and that the new channel is open and empty.
    pub work_round-call :
        (fuel : ℕ) (worker' : Worker K Q) (world world' later : W)
        → 0 < fresh.event_fd.descriptor.fd
        → items fresh.queue ≡ []
        → find_channel id worker.data_channels ≡ none
        → work_round os messages
            (returns fresh)
            (some (call_task invoke id ctx default_answer request callback))
            worker
            world
          ≡ returns (worker', world')
        → (c c' : EventChannel K Q) × (world' ≡ (invoke request world).1)
          × (find_channel id worker'.data_channels ≡ some c)
          × (drain_data_channel os messages deliver (suc (suc fuel)) c later
              ≡ some (c', callback (invoke request world).0 later))
          × (items c'.queue ≡ [])
    unfolding work_round check_ran
    work_round-call fuel worker' world world' later o empty new e =
        let m = answer_message world in
        let (r, c, s, open_c, h) =
          try_send-items os messages limit count items eventfd fifo m fresh room o in
        let ran = run_task-call world new in
        let f = find_channel-set id c (set_channel id fresh worker.data_channels) in
        elim h [
          | inl (took, i, n) ↦
              let one : items c.queue ≡ m ∷ [] = ground (arith, i, empty) in
              let (c', d, i', z) =
                drain_data_channel-one os messages limit count items eventfd fifo deliver fuel
                  (count c.event_fd.counter - 1) c m [] later open_c (omega (arith, n)) one in
              (
                c,
                c',
                ground (arith, e, ran, s, took, call_task-valid),
                ground (arith, e, ran, s, took, f, call_task-valid),
                d ∙ ap (λ w. some (c', w)) (deliver-answer_message world later),
                i',
              )
          | inr (kept, i, n) ↦ ground (arith, e, ran, s, kept, call_task-valid)
        ]
