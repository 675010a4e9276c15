-- ===== src/Async/Worker/Ending.antt =====
-- A worker that is stopped leaves its loop.
use kclpp.Prelude.{
  ℕ, zero, suc, ◌+◌, ◌-◌, ◌%◌, ◌≤◌, ◌<◌, ◌≡◌, refl, Bool, true, false, Option, none, some, inl, inr,
  arith, ltb, leb, ◌==◌, ◌&&◌, ◌≢◌, Bool-cases, Option-cases,
}
use kclpp.Async.Worker.{blocks, thread_func}

-- whether the next read of `running_` is the full one
abbrev is_full : ℕ → Bool
is_full counter = ltb 0 (counter + 1) && (counter + 1) % 20 == 0

module _ {S : Type 0} (round : S → Option S) (seq_cst relaxed : ℕ → Bool) where
  thread_func-aborts :
      (fuel i counter : ℕ) (s : S)
      → round s ≡ none
      → thread_func round seq_cst relaxed (suc fuel) true i counter s ≢ blocks
  unfolding thread_func
  thread_func-aborts fuel i counter s e = ground (arith, e)

  thread_func-full :
      (fuel i counter : ℕ) (s s' : S)
      → round s ≡ some s'
      → is_full counter ≡ true
      → thread_func round seq_cst relaxed (suc fuel) true i counter s
        ≡ thread_func round seq_cst relaxed fuel (seq_cst i) (suc i) 0 s'
  unfolding thread_func
  thread_func-full fuel i counter s s' e f = rw (thread_func, e, f) refl

  thread_func-relaxed :
      (fuel i counter : ℕ) (s s' : S)
      → round s ≡ some s'
      → is_full counter ≡ false
      → thread_func round seq_cst relaxed (suc fuel) true i counter s
        ≡ thread_func round seq_cst relaxed fuel (relaxed i) (suc i) (counter + 1) s'
  unfolding thread_func
  thread_func-relaxed fuel i counter s s' e f = rw (thread_func, e, f) refl

  thread_func-false :
      (fuel i counter : ℕ) (s : S)
      → 0 < fuel
      → thread_func round seq_cst relaxed fuel false i counter s ≢ blocks
  unfolding thread_func
  thread_func-false zero i counter s h = elim h [ ]
  thread_func-false (suc fuel) i counter s h = ground arith

module _ {S : Type 0} (round : S → Option S) (seq_cst relaxed : ℕ → Bool) (stop : ℕ)
    (stopped : (i : ℕ) → stop ≤ i → seq_cst i ≡ false) where
  -- after the stop: the rounds up to the next full read
  thread_func-late :
      (fuel : ℕ) (is_running : Bool) (i counter : ℕ) (s : S)
      → stop ≤ i
      → counter < 20
      → 20 - counter < fuel
      → thread_func round seq_cst relaxed fuel is_running i counter s ≢ blocks
  thread_func-late zero is_running i counter s p c enough = elim enough [ ]
  thread_func-late (suc fuel) false i counter s p c enough =
      thread_func-false round seq_cst relaxed (suc fuel) i counter s (omega arith)
  thread_func-late (suc fuel) true i counter s p c enough = elim (Option-cases (round s)) [
    | inl e ↦ thread_func-aborts round seq_cst relaxed fuel i counter s e
    | inr (s', e) ↦ elim (Bool-cases (is_full counter)) [
      | inl f ↦
          rw (thread_func-full round seq_cst relaxed fuel i counter s s' e f, stopped i p)
            (thread_func-false round seq_cst relaxed fuel (suc i) 0 s' (omega (arith, enough, c)))
      | inr f ↦ rw (thread_func-relaxed round seq_cst relaxed fuel i counter s s' e f) (
          thread_func-late fuel (relaxed i) (suc i) (counter + 1) s' (omega (arith, p))
            (ground (arith, c, f)) (ground (arith, c, enough, f)))
    ]
  ]

  -- When the full reads of `running_` give false from round `stop` on, the loop of the worker ends
  -- within `stop + 20` rounds, whatever the reads with relaxed order give and whatever the rounds do.
  pub thread_func-ends :
      (fuel : ℕ) (is_running : Bool) (i counter : ℕ) (s : S)
      → counter < 20
      → stop + 20 < i + fuel
      → 20 < fuel
      → thread_func round seq_cst relaxed fuel is_running i counter s ≢ blocks
  thread_func-ends zero is_running i counter s c enough e20 = elim e20 [ ]
  thread_func-ends (suc fuel) false i counter s c enough e20 =
      thread_func-false round seq_cst relaxed (suc fuel) i counter s (omega arith)
  thread_func-ends (suc fuel) true i counter s c enough e20 = elim (Bool-cases (leb stop i)) [
    | inl late ↦
        thread_func-late (suc fuel) true i counter s (ground (arith, late)) c (omega (arith, e20))
    | inr early ↦ elim (Option-cases (round s)) [
      | inl e ↦ thread_func-aborts round seq_cst relaxed fuel i counter s e
      | inr (s', e) ↦ elim (Bool-cases (is_full counter)) [
        | inl f ↦ rw (thread_func-full round seq_cst relaxed fuel i counter s s' e f) (
            thread_func-ends fuel (seq_cst i) (suc i) 0 s' (omega arith) (omega (arith, enough))
              (ground (arith, early, enough)))
        | inr f ↦ rw (thread_func-relaxed round seq_cst relaxed fuel i counter s s' e f) (
            thread_func-ends fuel (relaxed i) (suc i) (counter + 1) s' (ground (arith, c, f))
              (omega (arith, enough)) (ground (arith, early, enough)))
      ]
    ]
  ]
