-- ===== src/Async/Event/Dispatch.antt =====
-- Which callbacks an event that fires runs, and in which order.
use kclpp.Prelude.{
  ◌≡◌, refl, Bool, true, false, Option, none, some, List, [], ◌∷◌, ◌++◌, ◌||◌, if◌then◌else◌, ℕ,
  ◌∙◌, ap, arith,
}
use kclpp.Async.Event.{
  What, CallbackEvent, Libevent, SignalHandlerRegistry, libevent_callback, when, call_or_log,
  call_checked, callback_event, timer_event, signal_event, add_handler, add, create_new_event,
  create_new_signal_event, no_flags, keep_handler,
}

module _ {W : Type 0} where
  -- the callbacks of a list, one after the other
  unfoldable pub run_all : List (W → W) → W → W
  run_all [] w = w
  run_all (f ∷ fs) w = run_all fs (f w)

  -- the callback, where its flag is set and there is one
  unfoldable pub set_callback : Bool → Option (W → W) → List (W → W)
  set_callback true (some f) = f ∷ []
  set_callback true none = []
  set_callback false f = []

  -- the callbacks of an event that fires, in the order of their calls
  unfoldable pub due_callbacks : What → CallbackEvent W → List (W → W)
  unfolding set_callback
  due_callbacks what c =
      set_callback what.ev_read c.read_callback
      ++ set_callback what.ev_write c.write_callback
      ++ set_callback what.ev_timeout c.timeout_callback

  when-call_or_log :
      (b : Bool) (f : Option (W → W)) (w : W)
      → when b (call_or_log f) w ≡ some (run_all (set_callback b f) w)
  unfolding when call_or_log run_all set_callback
  when-call_or_log true none w = refl
  when-call_or_log true (some f) w = refl
  when-call_or_log false f w = refl

  run_all-append : (fs gs : List (W → W)) (w : W) → run_all (fs ++ gs) w ≡ run_all gs (run_all fs w)
  unfolding run_all
  run_all-append [] gs w = refl
  run_all-append (f ∷ fs) gs w = run_all-append fs gs (f w)

  when-some : (b : Bool) (w : W) → when b some w ≡ some w
  unfolding when
  when-some true w = refl
  when-some false w = refl

  run_all-due_callbacks :
      (what : What) (c : CallbackEvent W) (w : W)
      → run_all (due_callbacks what c) w
        ≡ run_all (set_callback what.ev_timeout c.timeout_callback) (
            run_all
              (set_callback what.ev_write c.write_callback)
              (run_all (set_callback what.ev_read c.read_callback) w))
  unfolding due_callbacks
  run_all-due_callbacks what c w =
      let reads = set_callback what.ev_read c.read_callback in
      let writes = set_callback what.ev_write c.write_callback in
      let times = set_callback what.ev_timeout c.timeout_callback in
      run_all-append (reads ++ writes) times w ∙ ap (run_all times) (run_all-append reads writes w)

  -- A callback event that fires never ends the process: it runs the callbacks whose flag is set, each
  -- once, the read callback first, then the write callback, then the timeout callback.
  pub libevent_callback-callback_event :
      (c : CallbackEvent W) (what : What) (w : W)
      → libevent_callback (callback_event c) what w ≡ some (run_all (due_callbacks what c) w)
  unfolding libevent_callback callback_event
  libevent_callback-callback_event c what w =
      let reads = set_callback what.ev_read c.read_callback in
      let writes = set_callback what.ev_write c.write_callback in
      let times = set_callback what.ev_timeout c.timeout_callback in
      rw
        (
          when-call_or_log what.ev_read c.read_callback w,
          when-call_or_log what.ev_write c.write_callback (run_all reads w),
          when-some what.ev_signal (run_all writes (run_all reads w)),
          when-call_or_log what.ev_timeout c.timeout_callback (run_all writes (run_all reads w)),
          run_all-due_callbacks what c w,
        )
        refl

-- A timer event that has its callback runs it exactly where it fires for its timeout, and never ends the
-- process.
pub libevent_callback-timer_event :
    {W : Type 0} (f : W → W) (what : What) (w : W)
    → libevent_callback (timer_event (some f)) what w
      ≡ some (run_all (set_callback what.ev_timeout (some f)) w)
unfolding libevent_callback timer_event call_checked run_all set_callback when
libevent_callback-timer_event f what w = ground arith

-- A signal event that has its callback runs it once where it fires for a signal alone; for anything
-- else as well it ends the process.
pub libevent_callback-signal_event :
    {W : Type 0} (f : W → W) (what : What) (w : W)
    → what.ev_signal ≡ true
    → libevent_callback (signal_event (some f)) what w
      ≡ (if what.ev_read || what.ev_write || what.ev_timeout then none else some (f w))
unfolding libevent_callback signal_event call_checked when
libevent_callback-signal_event f what w h = ground (arith, h)

module _ {B E W : Type 0} (libevent : Libevent B E) where
  -- A signal handler that is added while libevent makes events stands last in the registry; its event
  -- calls the handler once for each signal, and the handlers from before are kept.
  pub add_handler-fires :
      (signo : ℕ) (f : W → W) (r : SignalHandlerRegistry E W) (b b' : B) (p : E)
      → libevent.event_new (some signo) (record no_flags { ev_signal = true; ev_persist = true }) b
        ≡ (some p, b')
      → (add_handler libevent signo f r b
          ≡ some (
            record { handlers = r.handlers ++ (record { event = some p; this = some f } ∷ []) },
            libevent.event_add p none b',
          ))
        × ((w : W)
            → libevent_callback (signal_event (some f)) (record no_flags { ev_signal = true }) w
              ≡ some (f w))
  unfolding add_handler keep_handler add create_new_event create_new_signal_event
  add_handler-fires signo f r b b' p h = (
    ground (arith, h),
    λ w. libevent_callback-signal_event f (record no_flags { ev_signal = true }) w refl,
  )

  -- Where libevent makes no event, adding a handler ends the process.
  pub add_handler-ends :
      (signo : ℕ) (f : W → W) (r : SignalHandlerRegistry E W) (b b' : B)
      → libevent.event_new (some signo) (record no_flags { ev_signal = true; ev_persist = true }) b
        ≡ (none, b')
      → add_handler libevent signo f r b ≡ none
  unfolding add_handler keep_handler add create_new_event create_new_signal_event
  add_handler-ends signo f r b b' h = ground (arith, h)
