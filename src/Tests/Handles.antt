-- ===== src/Tests/Handles.antt =====
-- Handles of two shared numbers, and events that fire.
use kclpp.Prelude.{ℕ, ◌+◌, ◌*◌, ◌≤◌, ◌≡◌, refl, true, none, some, List, [], ◌∷◌, ◌==◌, has_value}
use kclpp.Locks.{Locks, get_handle, destructs}
use kclpp.Locks.Handles.{
  HandleOp, getting, assigning, writing, perform_all, new_locks, holders, handles_exclusive,
}
use kclpp.Async.Event.{CallbackEvent, no_flags, libevent_callback, callback_event, signal_event}

-- a handle of each number is made, the first is assigned to the second, and one more is wanted
abbrev two_handles : List (HandleOp ℕ)
two_handles =
    getting 3 ∷ getting 5 ∷ writing 1 9 ∷ assigning 0 1 ∷ getting 5 ∷ getting 3 ∷ writing 1 2 ∷ []

after : Locks ℕ
unfolding perform_all
after = perform_all two_handles (new_locks (λ r. r))

-- the handle of number 5 was closed by the assignment, so another is made; number 3 is still held
handles_after : after.handles ≡ some 5 ∷ some 3 ∷ none ∷ []
unfolding after
handles_after = refl

values_after : ((after.objects 3).instance_value ≡ 2) × ((after.objects 5).instance_value ≡ 5)
unfolding after
values_after = (refl, refl)

handles_exclusive_example :
    (s : Locks ℕ) × (perform_all two_handles (new_locks (λ r. r)) ≡ s)
    × (holders 3 s.handles ≤ 1)
    × (has_value (get_handle 3 s) ≡ (holders 3 s.handles == 0))
    × (destructs 3 s ≡ (holders 3 s.handles == 0))
handles_exclusive_example = handles_exclusive (λ r. r) two_handles 3

-- An assignment of a handle to itself gives the mutex free.
self_assigned :
    (perform_all (getting 3 ∷ assigning 0 0 ∷ []) (new_locks (λ r. r))).handles ≡ none ∷ []
unfolding perform_all
self_assigned = refl

abbrev reads_and_times_out : CallbackEvent ℕ
reads_and_times_out = record {
  read_callback = some (λ n. n + 1);
  write_callback = none;
  timeout_callback = some (λ n. n * 10);
}

both_fire :
    libevent_callback
      (callback_event reads_and_times_out)
      (record no_flags { ev_timeout = true; ev_read = true; ev_write = true })
      4
    ≡ some 50
unfolding libevent_callback callback_event
both_fire = refl

timeout_of_signal :
    libevent_callback (signal_event (some (λ n. n + 1))) (record no_flags { ev_timeout = true }) 4
    ≡ none
unfolding libevent_callback signal_event
timeout_of_signal = refl
