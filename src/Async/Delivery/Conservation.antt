-- ===== src/Async/Delivery/Conservation.antt =====
-- Every accepted task is in one place.
use kclpp.Prelude.{
  ℕ, ◌+◌, ◌≡◌, ◌≤◌, refl, ap, Bool, true, false, Option, none, some, List, [], ◌∷◌, inl, inr, arith,
  sum_of, sum_of-set, if◌then◌else◌, Bool-cases, Option-cases, All, ◌&&◌,
}
use kclpp.Outcome.{success, failure, Outcome-cases}
use kclpp.Async.EventFd.{Os}
use kclpp.Async.Queue.{Queue, IsFifo, IsBag, count_if}
use kclpp.Async.Channel.{EventChannel, try_send}
use kclpp.Async.Channel.Counting.{try_send-count, drain_data_channel-count}
use kclpp.Async.Task.{Task, valid, run}
use kclpp.Async.Worker.{
  Ends, returns, Ends-cases, Worker, Message, find_channel, set_channel, get_data_channel, run_task,
  work_round, check_ran, run_outcome,
}
use kclpp.Async.Pool.{ThreadPool, try_submit, submitted}
use kclpp.Async.Delivery.{
  System, Steps, submit, work, wake, Reaches, here, further, deliver_noted, noted,
}

module _ {K Q C W : Type 0} (messages : Queue (Message C W) Q) (items : Q → List (Message C W))
    (fifo : IsFifo messages items) (p : Task C W → Bool) where
  abbrev pub in_channel : EventChannel K Q → ℕ
  in_channel c = count_if (λ m. p m.task) (items c.queue)

  abbrev pub in_channels : List (ℕ × EventChannel K Q) → ℕ
  in_channels = sum_of (λ e. in_channel e.1)

  in_channels-set :
      (id : ℕ) (c c' : EventChannel K Q) (cs : List (ℕ × EventChannel K Q))
      → find_channel id cs ≡ some c
      → in_channels (set_channel id c' cs) + in_channel c ≡ in_channels cs + in_channel c'
  unfolding find_channel set_channel
  in_channels-set id c c' [] h = ground arith
  in_channels-set id c c' ((j, d) ∷ cs) h = ground (arith, in_channels-set id c c' cs)

  in_channels-new :
      (id : ℕ) (c : EventChannel K Q) (cs : List (ℕ × EventChannel K Q))
      → find_channel id cs ≡ none
      → (in_channels (set_channel id c cs) ≡ in_channels cs + in_channel c)
        × (find_channel id (set_channel id c cs) ≡ some c)
  unfolding find_channel set_channel
  in_channels-new id c [] h = (ground arith, ground arith)
  in_channels-new id c ((j, d) ∷ cs) h =
      (ground (arith, in_channels-new id c cs), ground (arith, in_channels-new id c cs))

  pub in_worker : Worker K Q → ℕ
  in_worker w = in_channels w.data_channels

  get_data_channel-count :
      (fresh : Ends (EventChannel K Q)) (c : EventChannel K Q) (id : ℕ) (w w' : Worker K Q)
      → ((f : EventChannel K Q) → fresh ≡ returns f → items f.queue ≡ [])
      → get_data_channel fresh id w ≡ returns (c, w')
      → (in_worker w' ≡ in_worker w)
        × (find_channel id w'.data_channels ≡ some c)
        × (w'.running ≡ w.running)
  unfolding get_data_channel in_worker
  get_data_channel-count fresh c id w w' h e =
      elim (Option-cases (find_channel id w.data_channels)) [
        | inl new ↦ elim (Ends-cases fresh) [
          | inl a ↦
              (ground (arith, e, new, a), ground (arith, e, new, a), ground (arith, e, new, a))
          | inr (inl b) ↦
              (ground (arith, e, new, b), ground (arith, e, new, b), ground (arith, e, new, b))
          | inr (inr (d, r)) ↦
              let (n, f) = in_channels-new id d w.data_channels new in
              (
                ground (arith, h d r, e, new, n, r),
                ground (arith, e, new, f, r),
                ground (arith, e, new, r),
              )
        ]
        | inr (d, old) ↦ (ground (arith, e, old), ground (arith, e, old), ground (arith, e, old))
      ]

  module _ (os : Os K) (fresh : Ends (EventChannel K Q))
      (empty : (f : EventChannel K Q) → fresh ≡ returns f → items f.queue ≡ [])
      (kept : (t : Task C W) (c : C) → p (record t { cell = c }) ≡ p t) where
    run-kept : (t : Task C W) (w : W) → p (run t w).1 ≡ p t
    unfolding run
    run-kept t w = elim (Option-cases t.work) [
      | inl e ↦ ground (arith, e)
      | inr (f, e) ↦ ground (arith, e, kept t (f t.cell w).1)
    ]

    -- a task that was run and whose send succeeded has its message in a channel of the worker
    run_task-count :
        (t : Task C W) (worker worker' : Worker K Q) (world world' : W)
        → run_task os messages fresh t worker world ≡ returns (success tt, worker', world')
        → in_worker worker' ≡ in_worker worker + (if p t then 1 else 0)
    unfolding run_task in_worker
    run_task-count t worker worker' world world' ok =
        let m : Message C W = record {
          task = (run t world).1;
          outcome = run_outcome (run t world).0;
        } in
        elim (Ends-cases (get_data_channel fresh t.sender_id worker)) [
          | inl a ↦ ground (arith, ok, a)
          | inr (inl b) ↦ ground (arith, ok, b)
          | inr (inr (g, found)) ↦
              let (n, f, r) = get_data_channel-count fresh g.0 t.sender_id worker g.1 empty found in
              let s = try_send os messages m g.0 in
              let sent_one = try_send-count os messages items fifo (λ m'. p m'.task) m g.0 in
              let put = in_channels-set t.sender_id g.0 s.1 g.1.data_channels f in
              elim (Outcome-cases s.0) [
                | inl (u, h) ↦ ground (arith, ok, found, n, sent_one, put, h, run-kept t world)
                | inr (e, h) ↦ ground (arith, ok, found, h)
              ]
        ]

    abbrev taken : Option (Task C W) → ℕ
    taken none = 0
    taken (some t) = if valid t && p t then 1 else 0

    work_round-count :
        (t : Option (Task C W)) (worker worker' : Worker K Q) (world world' : W)
        → work_round os messages fresh t worker world ≡ returns (worker', world')
        → in_worker worker' ≡ in_worker worker + taken t
    unfolding work_round check_ran
    work_round-count none worker worker' world world' e = ground (arith, e)
    work_round-count (some t) worker worker' world world' e =
        elim (Ends-cases (run_task os messages fresh t worker world)) [
          | inl a ↦ ground (arith, e, a)
          | inr (inl b) ↦ ground (arith, e, b)
          | inr (inr ((success u, w₁, x₁), h)) ↦
              ground (arith, e, h, run_task-count t worker w₁ world x₁ h)
          | inr (inr ((failure f, w₁, x₁), h)) ↦ ground (arith, e, h)
        ]

    module _ {B : Type 0} (tasks : Queue (Task C W) B) (bag : B → List (Task C W))
        (is_bag : IsBag tasks bag) where
      -- where the tasks with the property are: waiting, in a channel, answered, or found invalid
      pub placed : System K Q B C W → ℕ
      placed s =
          count_if p (bag s.pool.work_queue)
          + sum_of in_worker s.pool.workers
          + count_if (λ m. p m.task) s.finished
          + count_if p s.refused

      try_submit-count :
          (t : Task C W) (q q' : ThreadPool K Q B)
          → try_submit tasks t q ≡ (success tt, q')
          → (count_if p (bag q'.work_queue)
              ≡ (if p t then 1 else 0) + count_if p (bag q.work_queue))
            × (q'.workers ≡ q.workers)
      unfolding try_submit submitted
      try_submit-count t q q' e =
          let b = (tasks.try_enqueue t q.work_queue).1 in
          elim (Bool-cases (tasks.try_enqueue t q.work_queue).0) [
            | inl took ↦
                let h : tasks.try_enqueue t q.work_queue ≡ (true, b) = rw took refl in
                (ground (arith, e, h, is_bag.put_in p t q.work_queue b h), ground (arith, e, h))
            | inr left ↦
                let h : tasks.try_enqueue t q.work_queue ≡ (false, b) = rw left refl in
                (ground (arith, e, h), ground (arith, e, h))
          ]

      dequeue-count :
          (o : Option (Task C W)) (b b' : B) (log : List (Task C W))
          → tasks.try_dequeue b ≡ (o, b')
          → count_if p (bag b) + count_if p log
            ≡ count_if p (bag b') + count_if p (noted o log) + taken o
      dequeue-count none b b' log e = omega (arith, is_bag.not_taken p b b' e)
      dequeue-count (some t) b b' log e = ground (arith, is_bag.taken_out p t b b' e)

      Steps-placed :
          (s s' : System K Q B C W)
          → Steps os messages tasks fresh s s'
          → placed s' + count_if p s.accepted ≡ placed s + count_if p s'.accepted
      unfolding placed in_worker
      Steps-placed s s' (submit t q e) =
          let (n, same) = try_submit-count t s.pool q e in
          omega (arith, n, ap (sum_of in_worker) same)
      Steps-placed s s' (work i worker worker' t b world w d r) = omega (
        arith,
        sum_of-set in_worker s.pool.workers i worker worker' w,
        work_round-count t worker worker' s.world world r,
        dequeue-count t s.pool.work_queue b s.refused d,
      )
      Steps-placed s s' (wake i id fuel worker c c' world log w f d) =
          let worker' = record worker { data_channels = set_channel id c' worker.data_channels } in
          omega (
            arith,
            sum_of-set in_worker s.pool.workers i worker worker' w,
            in_channels-set id c c' worker.data_channels f,
            drain_data_channel-count os messages items fifo (λ m. p m.task) deliver_noted (λ l. l.1)
                (λ m l. refl) fuel c c' (s.world, s.finished) (world, log) d,
          )

      new_workers-count :
          (ws : List (Worker K Q)) → All (λ w. w.data_channels ≡ []) ws → sum_of in_worker ws ≡ 0
      unfolding in_worker
      new_workers-count [] h = refl
      new_workers-count (w ∷ ws) h = ground (arith, h.0, new_workers-count ws h.1)

      Reaches-placed :
          (s s' : System K Q B C W)
          → placed s ≡ count_if p s.accepted
          → Reaches os messages tasks fresh s s'
          → placed s' ≡ count_if p s'.accepted
      Reaches-placed s s' h here = h
      Reaches-placed s s' h (further r e) =
          omega (arith, Steps-placed _ s' e, Reaches-placed s _ h r)

      -- No accepted task is lost or answered twice. From a pool with an empty queue, whose workers
      -- have no channels yet and whose new channels are empty, and in every order of submissions,
      -- rounds of the workers and runs of the event thread: for every property of tasks that their
      -- run keeps, the accepted tasks that have it are as many as those that wait in the queue, are
      -- in a message of a data channel, were answered, or were found invalid, so that no more of
      -- them are answered than were accepted.
      pub tasks_conserved :
          (s s' : System K Q B C W)
          → bag s.pool.work_queue ≡ []
          → All (λ w. w.data_channels ≡ []) s.pool.workers
          → s.accepted ≡ []
          → s.finished ≡ []
          → s.refused ≡ []
          → Reaches os messages tasks fresh s s'
          → (count_if p (bag s'.pool.work_queue)
                + sum_of in_worker s'.pool.workers
                + count_if (λ m. p m.task) s'.finished
                + count_if p s'.refused
              ≡ count_if p s'.accepted)
            × (count_if (λ m. p m.task) s'.finished ≤ count_if p s'.accepted)
      unfolding placed
      tasks_conserved s s' b ws a f r steps =
          let start : placed s ≡ count_if p s.accepted =
            ground (arith, b, new_workers-count s.pool.workers ws, a, f, r) in
          let h = Reaches-placed s s' start steps in (h, omega (arith, h))
