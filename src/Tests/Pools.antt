-- ===== src/Tests/Pools.antt =====
-- A pool of two threads, tasks that add to a log, and the objects that surround them.
use kclpp.Prelude.{
  sum_of, ℕ, ◌+◌, ◌==◌, ◌≤◌, ◌≡◌, ◌≢◌, refl, Bool, true, false, Option, none, some, if◌then◌else◌,
  get_elem?, set, List, [], ◌∷◌, arith, All, ltb,
}
use kclpp.Outcome.{success}
use kclpp.Async.Queue.{count_if}
use kclpp.Async.Channel.{EventChannel, drain_data_channel, drain_control_channel, quiet}
use kclpp.Async.Task.{Task, valid}
use kclpp.Async.Worker.{
  Worker, Message, deliver, find_channel, work_round, run_task, thread_func, blocks, returns,
  aborts, joinable, hanging, joined,
}
use kclpp.Async.Worker.Ending.{thread_func-ends}
use kclpp.Async.Pool.{
  stop_workers, ThreadPool, try_submit, create_new, start, stop_join, trigger_stop, destroy,
}
use kclpp.Async.Pool.Lifecycle.{IsJoined, stop_join-IsUp, stop_join-again}
use kclpp.Async.Delivery.{System, Reaches, here, further, submit, work}
use kclpp.Async.Delivery.Conservation.{in_worker, tasks_conserved}
use kclpp.Async.Call.{call_task, call_work, submit_call, call_async}
use kclpp.Async.Call.Answers.{work_round-call}
use kclpp.Async.Call.Refusal.{takes, call_async-submitted}
use kclpp.ClientWorker.{run, new_state, WorkerShutdownState}
use kclpp.ClientWorker.Shutdown.{run-initialized}
use kclpp.Guards.{make_guard}
use kclpp.Guards.Ownership.{
  MoveOp, construct_from, assign_from, descriptors, scope_guards, api_guards, perform_all, ends_all,
  moves_conserve,
}
use kclpp.Tests.Async.{
  os, limit, same, self, os-IsEventfd, list_queue, list_queue-IsFifo, list_queue-IsBag,
}

-- the full reads give false from round 30 on, the relaxed ones never do
abbrev seq_cst : ℕ → Bool
seq_cst i = ltb i 30

thread_func-ends_example :
    thread_func (λ n. some (n + 1)) seq_cst (λ i. true) 51 true 0 0 0 ≢ blocks
thread_func-ends_example =
    thread_func-ends (λ n. some (n + 1)) seq_cst (λ i. true) 30 (λ i h. ground (arith, h)) 51 true 0
      0 0 (omega arith) (omega arith) (omega arith)

abbrev live : Worker ℕ (List ℕ)
live = record { running = true; thread = some joinable; data_channels = [] }

abbrev up : ThreadPool ℕ (List ℕ) (List ℕ)
up = record { num_threads = 2; work_queue = []; workers = live ∷ live ∷ []; running = true }

stop_join-IsUp_example :
    (p' : ThreadPool ℕ (List ℕ) (List ℕ)) × (stop_join up ≡ returns (success tt, p'))
    × (p'.running ≡ false)
    × All IsJoined p'.workers
    × (destroy p' ≡ returns tt)
    × (destroy up ≡ returns tt)
    × (destroy (trigger_stop up).1 ≡ aborts)
    × ((i : ℕ) (w : Worker ℕ (List ℕ))
        → get_elem? up.workers i ≡ some w
        → let q = record up { workers = set up.workers i (record w { thread = some hanging }) } in
          (stop_join q ≡ blocks) × (destroy q ≡ blocks))
stop_join-IsUp_example = stop_join-IsUp up (record {
  running = refl;
  live = ((refl, refl), ((refl, refl), tt));
  count = refl;
  enough = omega arith;
})

abbrev down : ThreadPool ℕ (List ℕ) (List ℕ)
down = record {
  num_threads = 1;
  work_queue = [];
  workers = record { running = false; thread = some joined; data_channels = [] } ∷ [];
  running = false;
}

stop_join-again_example :
    (p' : ThreadPool ℕ (List ℕ) (List ℕ)) × (start down ≡ returns (success tt, p'))
    × (stop_join p' ≡ aborts)
stop_join-again_example = stop_join-again down refl ((refl, refl), tt) (omega arith) (omega arith)

-- a call that doubles its request and counts the calls
abbrev double : ℕ → List ℕ → ℕ × List ℕ
double n w = (n + n, 0 ∷ w)

abbrev note : ℕ → List ℕ → List ℕ
note x w = x ∷ w

abbrev task : Task ℕ (List ℕ)
task = call_task double 5 1 0 21 note

abbrev fresh : EventChannel ℕ (List (Message ℕ (List ℕ)))
fresh = record { event_fd = record { descriptor = record { fd = 3 }; counter = 0 }; queue = [] }

abbrev idle : Worker ℕ (List (Message ℕ (List ℕ)))
idle = record { running = true; thread = some joinable; data_channels = [] }

abbrev answered : Message ℕ (List ℕ)
answered = record { task = record task { cell = 42 }; outcome = success tt }

abbrev busy : Worker ℕ (List (Message ℕ (List ℕ)))
busy = record idle {
  data_channels =
      (
        5,
        record {
          event_fd = record { descriptor = record { fd = 3 }; counter = 1 };
          queue = answered ∷ [];
        },
      )
      ∷ [];
}

ran : work_round os list_queue (returns fresh) (some task) idle [] ≡ returns (busy, 0 ∷ [])
unfolding work_round run_task call_task call_work
ran = refl

work_round-call_example :
    (c c' : EventChannel ℕ (List (Message ℕ (List ℕ)))) × (◌≡◌ {A = List ℕ} (0 ∷ []) (0 ∷ []))
    × (find_channel 5 busy.data_channels ≡ some c)
    × (drain_data_channel os list_queue deliver 3 c (7 ∷ []) ≡ some (c', 42 ∷ 7 ∷ []))
    × (c'.queue ≡ [])
unfolding find_channel
work_round-call_example =
    work_round-call os list_queue limit same self os-IsEventfd list_queue-IsFifo (omega arith)
      double 5 1 0 21 note fresh idle (omega arith) 1 busy [] (0 ∷ []) (7 ∷ []) (omega arith) refl
      refl ran

abbrev Tasks : Type 0
Tasks = List (Task ℕ (List ℕ))

abbrev system :
    Tasks
    → List (Worker ℕ (List (Message ℕ (List ℕ))))
    → List ℕ
    → Tasks
    → System ℕ (List (Message ℕ (List ℕ))) Tasks ℕ (List ℕ)
system waiting ws w accepted = record {
  pool = record { num_threads = 1; work_queue = waiting; workers = ws; running = true };
  world = w;
  accepted = accepted;
  refused = [];
  finished = [];
}

two_steps :
    Reaches os list_queue list_queue
      (returns fresh)
      (system [] (idle ∷ []) [] [])
      (system [] (busy ∷ []) (0 ∷ []) (task ∷ []))
unfolding try_submit valid call_task
two_steps =
    further (further here (submit task (system (task ∷ []) (idle ∷ []) [] []).pool refl))
      (work 0 idle busy (some task) [] (0 ∷ []) refl refl ran)

abbrev from_five : Task ℕ (List ℕ) → Bool
from_five t = t.sender_id == 5

tasks_conserved_example :
    (0 + sum_of (in_worker list_queue self list_queue-IsFifo from_five) (busy ∷ []) + 0 + 0 ≡ 1)
    × (0 ≤ 1)
unfolding valid call_task
tasks_conserved_example =
    tasks_conserved list_queue self list_queue-IsFifo from_five os (returns fresh)
      (λ f e. ground (arith, e)) (λ t c. refl) list_queue self list_queue-IsBag
      (system [] (idle ∷ []) [] []) (system [] (busy ∷ []) (0 ∷ []) (task ∷ [])) refl (refl, tt)
      refl refl refl two_steps

abbrev Pool : Type 0
Pool = ThreadPool ℕ (List ℕ) Tasks

abbrev running_pool : Pool
running_pool = record (create_new 1 []) { running = true }

-- a closure that stops the pool waits before the call
abbrev stop_all : Pool → Pool
stop_all p = (trigger_stop p).1

abbrev control : EventChannel ℕ (List (Pool → Pool))
control = record {
  event_fd = record { descriptor = record { fd = 3 }; counter = 1 };
  queue = stop_all ∷ [];
}

abbrev sent : EventChannel ℕ (List (Pool → Pool))
sent = record {
  event_fd = record { descriptor = record { fd = 3 }; counter = 2 };
  queue = stop_all ∷ submit_call double list_queue 5 1 0 21 note ∷ [];
}

was_sent : call_async double os list_queue list_queue 5 1 0 21 note control ≡ some sent
unfolding call_async
was_sent = refl

call_async-submitted_example :
    (c'' : EventChannel ℕ (List (Pool → Pool))) × (pool' : Pool) × (drain_control_channel os
        list_queue
        (quiet (λ f p. f p))
        4
        sent
        running_pool
      ≡ some (c'', pool'))
    × (c''.queue ≡ [])
    × (count_if from_five pool'.work_queue ≡ 0 + 0)
unfolding takes trigger_stop stop_workers
call_async-submitted_example =
    call_async-submitted os list_queue limit same self os-IsEventfd list_queue-IsFifo (omega arith)
      list_queue self list_queue-IsBag double 5 1 0 21 note from_five 4 control sent running_pool
      (omega arith) (omega arith) was_sent

-- another thread shuts the worker down, at the time 70, before the read of round 4
abbrev others : ℕ → Option ℕ
others i = if i == 4 then some 70 else none

run-initialized_example :
    (run 9 (λ i. none) (success tt) new_state ≡ blocks)
    × (s' : WorkerShutdownState) × (run 9 others (success tt) new_state ≡ returns (success tt, s'))
    × (s'.shutdown ≡ true)
    × (s'.shutdown_complete ≡ true)
run-initialized_example = run-initialized 4 9 70 others new_state refl refl refl (omega arith)

abbrev moves : List MoveOp
moves = construct_from 0 ∷ assign_from 1 0 ∷ []

moves_conserve_example :
    (ends_all (descriptors 3) (perform_all (descriptors 3) moves (record { fd = 3 } ∷ []))
      ≡ ends_all (descriptors 3) (record { fd = 3 } ∷ []))
    × (ends_all (scope_guards 4) (perform_all (scope_guards 4) moves (make_guard 4 ∷ []))
        ≡ ends_all (scope_guards 4) (make_guard 4 ∷ []))
    × (ends_all api_guards
          (perform_all api_guards moves (record { options = 0; active = true } ∷ []))
        ≡ ends_all api_guards (record { options = 0; active = true } ∷ []))
moves_conserve_example =
    moves_conserve moves 3 4 (record { fd = 3 } ∷ []) (make_guard 4 ∷ [])
      (record { options = 0; active = true } ∷ [])
