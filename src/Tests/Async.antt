-- ===== src/Tests/Async.antt =====
-- An eventfd that is a number and queues that are lists of at most three items, for the threads.
use kclpp.Prelude.{
  ℕ, zero, suc, ◌+◌, ◌≡◌, refl, Bool, true, false, Option, none, some, List, [], ◌∷◌, ◌++◌, arith,
  ltb, length, if◌then◌else◌,
}
use kclpp.Async.EventFd.{
  Os, IsEventfd, ReadReturn, WriteReturn, read_value, read_failed, would_block, wrote, write_failed,
}
use kclpp.Async.Queue.{Queue, IsFifo, IsBag, count_if}
use kclpp.Async.Channel.Counting.{count_if-append}

abbrev pub limit : ℕ
limit = 18446744073709551615

abbrev pub read_number : ℕ → ReadReturn × ℕ
read_number zero = (read_failed would_block, 0)
read_number (suc n) = (read_value (suc n), 0)

abbrev pub write_number : ℕ → ℕ → WriteReturn × ℕ
write_number n k = if ltb (k + n) limit then (wrote 8, k + n) else (write_failed would_block, k)

abbrev pub os : Os ℕ
os = record { sys_read = read_number; sys_write = write_number; strerror = λ e. "error" }

abbrev pub same : ℕ → ℕ
same k = k

pub os-IsEventfd : IsEventfd os limit same
os-IsEventfd = record {
  read_ready = λ k n e. (0, rw e refl, refl);
  read_empty = λ k e. (0, rw e refl, refl);
  write_fits = λ k h. (k + 1, ground arith, refl);
  write_full = λ k h. (k, ground arith, refl);
}

module _ {T : Type 0} where
  abbrev pub enqueue : T → List T → Bool × List T
  enqueue x q = if ltb (length q) 3 then (true, q ++ (x ∷ [])) else (false, q)

  abbrev pub dequeue : List T → Option T × List T
  dequeue [] = (none, [])
  dequeue (x ∷ xs) = (some x, xs)

  abbrev pub list_queue : Queue T (List T)
  list_queue = record { try_enqueue = enqueue; try_dequeue = dequeue }

  abbrev pub self : List T → List T
  self q = q

  pub list_queue-IsFifo : IsFifo list_queue self
  list_queue-IsFifo = record {
    enqueued = λ x q q' e. ground (arith, e);
    refused = λ x q q' e. ground (arith, e);
    dequeued = λ x xs q e. (xs, rw e refl, refl);
    drained = λ q e. ([], rw e refl, refl);
  }

  dequeue-count :
      (p : T → Bool) (x : T) (q q' : List T)
      → dequeue q ≡ (some x, q')
      → count_if p q ≡ (if p x then 1 else 0) + count_if p q'
  dequeue-count p x [] q' e = ground (arith, e)
  dequeue-count p x (y ∷ ys) q' e = ground (arith, e)

  dequeue-none :
      (p : T → Bool) (q q' : List T) → dequeue q ≡ (none, q') → count_if p q' ≡ count_if p q
  dequeue-none p [] q' e = ground (arith, e)
  dequeue-none p (y ∷ ys) q' e = ground (arith, e)

  pub list_queue-IsBag : IsBag list_queue self
  list_queue-IsBag = record {
    put_in = λ p x q q' e. ground (arith, e, count_if-append p q (x ∷ []));
    not_put = λ p x q q' e. ground (arith, e);
    taken_out = dequeue-count;
    not_taken = dequeue-none;
  }
