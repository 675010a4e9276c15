-- ===== src/Async/Channel/Wakeup.antt =====
-- The control channel between threads: the steps of `tryLockAndSend`, one producer at a time inside
-- its lock, and of `tryRead` in the loop of `drainControlChannel`, in any order.
use kclpp.Prelude.{
  ℕ, ◌<◌, ◌≡◌, refl, true, false, none, some, List, [], ◌⊎◌, inl, inr, arith, ◌≢◌, List-cases,
}
use kclpp.Async.EventFd.{Os, EventFd, IsEventfd, read, write}
use kclpp.Async.Queue.{Queue, IsFifo}
use kclpp.Async.Channel.{EventChannel}
use kclpp.Async.Channel.Sending.{write-signals}

-- where the producer that holds the lock is: it has still to raise the counter, or there is none
pub data Producer : Type 0 where
  outside must_signal : Producer

-- where the event thread is: in its event loop, before the read of the counter, or after it
pub data Consumer : Type 0 where
  waiting about_to_read about_to_dequeue : Consumer

pub record Threads (K Q : Type 0) : Type 0 where
  pub channel : EventChannel K Q
  pub producer : Producer
  pub consumer : Consumer

module _ {K T Q : Type 0} (os : Os K) (queue : Queue T Q) (count : K → ℕ) where
  -- The event loop calls the drain while the counter is not 0.
  pub data Steps (s : Threads K Q) : Threads K Q → Type 0 where
    enqueue :
        (x : T) (q : Q)
        → s.producer ≡ outside
        → queue.try_enqueue x s.channel.queue ≡ (true, q)
        → Steps s (record s { channel = record s.channel { queue = q }; producer = must_signal })
    find_full :
        (x : T) (q : Q)
        → s.producer ≡ outside
        → queue.try_enqueue x s.channel.queue ≡ (false, q)
        → Steps s (record s { channel = record s.channel { queue = q } })
    signal :
        s.producer ≡ must_signal
        → Steps s (record s {
          channel = record s.channel { event_fd = (write os 1 s.channel.event_fd).1 };
          producer = outside;
        })
    wake_up :
        s.consumer ≡ waiting
        → 0 < count s.channel.event_fd.counter
        → Steps s (record s { consumer = about_to_read })
    read_counter :
        s.consumer ≡ about_to_read
        → Steps s (record s {
          channel = record s.channel { event_fd = (read os s.channel.event_fd).1 };
          consumer = about_to_dequeue;
        })
    take_next :
        (x : T) (q : Q)
        → s.consumer ≡ about_to_dequeue
        → queue.try_dequeue s.channel.queue ≡ (some x, q)
        → Steps s (record s { channel = record s.channel { queue = q }; consumer = about_to_read })
    finish :
        (q : Q)
        → s.consumer ≡ about_to_dequeue
        → queue.try_dequeue s.channel.queue ≡ (none, q)
        → Steps s (record s { channel = record s.channel { queue = q }; consumer = waiting })

  pub data Reaches (s : Threads K Q) : Threads K Q → Type 0 where
    here : Reaches s s
    further : {s' s'' : Threads K Q} → Reaches s s' → Steps s' s'' → Reaches s s''

module _ {K T Q : Type 0} (os : Os K) (queue : Queue T Q) (limit : ℕ) (count : K → ℕ)
    (items : Q → List T) (eventfd : IsEventfd os limit count) (fifo : IsFifo queue items)
    (room : 1 < limit) where
  -- The event thread will look at the queue again, or has no message, or is going to be woken.
  pub record IsAwake (s : Threads K Q) : Type 0 where
    pub open_fd : 0 < s.channel.event_fd.descriptor.fd
    pub told :
        (s.consumer ≡ about_to_read)
        ⊎ ((s.consumer ≡ about_to_dequeue)
            ⊎ ((items s.channel.queue ≡ [])
                ⊎ ((0 < count s.channel.event_fd.counter) ⊎ (s.producer ≡ must_signal))))

  -- a dequeue that fails shows that there was nothing, and there is nothing after it
  dequeue-none : (q q' : Q) → queue.try_dequeue q ≡ (none, q') → items q' ≡ []
  dequeue-none q q' e = elim (List-cases (items q)) [
    | inl h ↦ let (q'', e', h') = fifo.drained q h in ground (arith, h', e, e')
    | inr (x, xs, h) ↦ let (q'', e', h') = fifo.dequeued x xs q h in ground (arith, e, e')
  ]

  write-open : (efd : EventFd K) → (write os 1 efd).1.descriptor ≡ efd.descriptor
  unfolding write
  write-open efd = ground arith

  read-open : (efd : EventFd K) → (read os efd).1.descriptor ≡ efd.descriptor
  unfolding read
  read-open efd = ground arith

  Steps-IsAwake : (s s' : Threads K Q) → IsAwake s → Steps os queue count s s' → IsAwake s'
  Steps-IsAwake s s' a (enqueue x q p e) = record {
    open_fd = a.open_fd;
    told = inr (inr (inr (inr refl)));
  }
  Steps-IsAwake s s' a (find_full x q p e) = record {
    open_fd = a.open_fd;
    told = ground (arith, a.told, fifo.refused x s.channel.queue q e);
  }
  Steps-IsAwake s s' a (signal p) =
      let (r, k, e, h) =
        write-signals os queue limit count items eventfd fifo s.channel.event_fd room a.open_fd in
      record {
        open_fd = rw (write-open s.channel.event_fd) a.open_fd;
        told = inr (inr (inr (inl (rw e h))));
      }
  Steps-IsAwake s s' a (wake_up w h) = record { open_fd = a.open_fd; told = inl refl }
  Steps-IsAwake s s' a (read_counter c) = record {
    open_fd = rw (read-open s.channel.event_fd) a.open_fd;
    told = inr (inl refl);
  }
  Steps-IsAwake s s' a (take_next x q c e) = record { open_fd = a.open_fd; told = inl refl }
  Steps-IsAwake s s' a (finish q c e) = record {
    open_fd = a.open_fd;
    told = inr (inr (inl (dequeue-none s.channel.queue q e)));
  }

  Reaches-IsAwake : (s s' : Threads K Q) → IsAwake s → Reaches os queue count s s' → IsAwake s'
  Reaches-IsAwake s s' a here = a
  Reaches-IsAwake s s' a (further r t) = Steps-IsAwake _ s' (Reaches-IsAwake s _ a r) t

  -- No wake-up of the event thread is lost. From an open channel without messages, in every order of
  -- the steps of the producers and of the event thread: whenever the event thread waits in its event
  -- loop and no producer is inside the lock, a queue that holds a message has a counter above 0, so
  -- the event loop calls the drain.
  pub no_lost_wakeup :
      (s s' : Threads K Q)
      → 0 < s.channel.event_fd.descriptor.fd
      → items s.channel.queue ≡ []
      → Reaches os queue count s s'
      → s'.consumer ≡ waiting
      → s'.producer ≡ outside
      → items s'.channel.queue ≢ []
      → 0 < count s'.channel.event_fd.counter
  no_lost_wakeup s s' o e r w p n =
      let a = Reaches-IsAwake s s' (record { open_fd = o; told = inr (inr (inl e)) }) r in
      ground (arith, a.told)
