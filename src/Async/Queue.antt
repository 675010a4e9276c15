-- ===== src/Async/Queue.antt =====
-- The vendored queues of include/kclpp/async/queues, as operations on a state `Q`. `SPSCQueue` is
-- `ReaderWriterQueue`, whose `try_enqueue` fails where the block has no room; `MPMCQueue` is
-- `BlockingConcurrentQueue`, which orders the items of one producer only.
use kclpp.Prelude.{
  ℕ, ◌+◌, if◌then◌else◌, ◌≡◌, Bool, true, false, Option, none, some, List, [], ◌∷◌, ◌++◌,
}

pub record Queue (T Q : Type 0) : Type 0 where
  pub try_enqueue : T → Q → Bool × Q
  pub try_dequeue : Q → Option T × Q

-- What the queue of one producer and one consumer documents, by the items that it holds.
pub record IsFifo {T Q : Type 0} (queue : Queue T Q) (items : Q → List T) : Type 0 where
  pub enqueued :
      (x : T) (q q' : Q) → queue.try_enqueue x q ≡ (true, q') → items q' ≡ items q ++ (x ∷ [])
  pub refused : (x : T) (q q' : Q) → queue.try_enqueue x q ≡ (false, q') → items q' ≡ items q
  pub dequeued :
      (x : T) (xs : List T) (q : Q)
      → items q ≡ x ∷ xs
      → (q' : Q) × (queue.try_dequeue q ≡ (some x, q')) × (items q' ≡ xs)
  pub drained :
      (q : Q) → items q ≡ [] → (q' : Q) × (queue.try_dequeue q ≡ (none, q')) × (items q' ≡ [])

abbrev pub count_if {ℓ} : {A : Type ℓ} → (A → Bool) → List A → ℕ
count_if p [] = 0
count_if p (x ∷ xs) = (if p x then 1 else 0) + count_if p xs

-- What the queue of many producers and many consumers documents: it holds each item once, in an
-- order of its own, and a call that fails changes nothing.
pub record IsBag {T Q : Type 0} (queue : Queue T Q) (items : Q → List T) : Type 0 where
  pub put_in :
      (p : T → Bool) (x : T) (q q' : Q)
      → queue.try_enqueue x q ≡ (true, q')
      → count_if p (items q') ≡ (if p x then 1 else 0) + count_if p (items q)
  pub not_put :
      (p : T → Bool) (x : T) (q q' : Q)
      → queue.try_enqueue x q ≡ (false, q')
      → count_if p (items q') ≡ count_if p (items q)
  pub taken_out :
      (p : T → Bool) (x : T) (q q' : Q)
      → queue.try_dequeue q ≡ (some x, q')
      → count_if p (items q) ≡ (if p x then 1 else 0) + count_if p (items q')
  pub not_taken :
      (p : T → Bool) (q q' : Q)
      → queue.try_dequeue q ≡ (none, q')
      → count_if p (items q') ≡ count_if p (items q)
