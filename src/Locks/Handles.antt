-- ===== src/Locks/Handles.antt =====
-- At most one handle holds a value, however the handles of a program are made, moved and closed.
use kclpp.Prelude.{
  ℕ, zero, suc, ◌≤◌, ◌≡◌, refl, false, Option, none, some, List, [], ◌∷◌, ◌==◌, get_elem?, set,
  sum_of, sum_of-set, if◌then◌else◌, arith, Option-cases, inl, inr, has_value, subst, sym, ◌⊎◌,
}
use kclpp.Locks.{
  Locks, get_handle, maybe_close, move_handle, assign_handle, taken_from, write_through, get_ptr,
  destructs, set_locked, set_instance,
}

-- What the threads of a program do, in the order in which it happens.
pub data HandleOp (T : Type 0) : Type 0 where
  getting closing moving : ℕ → HandleOp T
  assigning : ℕ → ℕ → HandleOp T
  writing : ℕ → T → HandleOp T

unfoldable pub holds : ℕ → Option ℕ → ℕ
holds r none = 0
holds r (some q) = if r == q then 1 else 0

-- how many handles of a list hold value `r`
abbrev pub holders : ℕ → List (Option ℕ) → ℕ
holders r hs = sum_of (holds r) hs

no_parent-set :
    (hs : List (Option ℕ)) (i j : ℕ)
    → get_elem? hs i ≡ some none
    → get_elem? (set hs j none) i ≡ some none
no_parent-set [] i j h = h
no_parent-set (c ∷ cs) zero zero h = refl
no_parent-set (c ∷ cs) zero (suc j) h = h
no_parent-set (c ∷ cs) (suc i) zero h = h
no_parent-set (c ∷ cs) (suc i) (suc j) h = no_parent-set cs i j h

get_elem?-set-none :
    (hs : List (Option ℕ)) (i : ℕ) (p : Option ℕ)
    → get_elem? hs i ≡ some p
    → get_elem? (set hs i none) i ≡ some none
get_elem?-set-none [] i p h = ground (arith, h)
get_elem?-set-none (c ∷ cs) zero p h = refl
get_elem?-set-none (c ∷ cs) (suc i) p h = get_elem?-set-none cs i p h

module _ {T : Type 0} where
  -- A thread that waits for a mutex, or whose handle has no parent, does nothing.
  or_waits : Locks T → Option (Locks T) → Locks T
  or_waits s none = s
  or_waits s (some s') = s'

  unfoldable pub perform : HandleOp T → Locks T → Locks T
  unfolding or_waits get_handle maybe_close move_handle assign_handle write_through
  perform (getting r) s = or_waits s (get_handle r s)
  perform (closing i) s = maybe_close i s
  perform (moving i) s = move_handle i s
  perform (assigning i j) s = assign_handle i j s
  perform (writing i v) s = or_waits s (write_through i v s)

  unfoldable pub perform_all : List (HandleOp T) → Locks T → Locks T
  unfolding perform
  perform_all [] s = s
  perform_all (o ∷ ops) s = perform_all ops (perform o s)

  -- a mutex is locked exactly where one handle holds it
  unfoldable pub IsOwned : Locks T → Type 0
  IsOwned s = (r : ℕ) → holders r s.handles ≡ (if (s.objects r).locked then 1 else 0)

  get_handle-IsOwned : (r : ℕ) (s : Locks T) → IsOwned s → IsOwned (or_waits s (get_handle r s))
  unfolding IsOwned or_waits get_handle set_locked holds
  get_handle-IsOwned r s h q = ground (arith, h q)

  maybe_close-IsOwned : (i : ℕ) (s : Locks T) → IsOwned s → IsOwned (maybe_close i s)
  unfolding IsOwned maybe_close set_locked holds
  maybe_close-IsOwned i s h q = elim (Option-cases (get_elem? s.handles i)) [
    | inl e ↦ ground (arith, e, h q)
    | inr (none, e) ↦ ground (arith, e, h q)
    | inr (some r, e) ↦ ground (arith, e, h q, sum_of-set (holds q) s.handles i (some r) none e)
  ]

  move_handle-IsOwned : (i : ℕ) (s : Locks T) → IsOwned s → IsOwned (move_handle i s)
  unfolding IsOwned move_handle holds
  move_handle-IsOwned i s h q = elim (Option-cases (get_elem? s.handles i)) [
    | inl e ↦ ground (arith, e, h q)
    | inr (p, e) ↦ ground (arith, e, h q, sum_of-set (holds q) s.handles i p none e)
  ]

  -- A handle that was closed has no parent.
  maybe_close-no_parent :
      (i : ℕ) (s : Locks T)
      → (get_elem? (maybe_close i s).handles i ≡ none)
        ⊎ (get_elem? (maybe_close i s).handles i ≡ some none)
  unfolding maybe_close
  maybe_close-no_parent i s = elim (Option-cases (get_elem? s.handles i)) [
    | inl e ↦ ground (arith, e)
    | inr (none, e) ↦ ground (arith, e)
    | inr (some r, e) ↦ ground (arith, e, get_elem?-set-none s.handles i (some r) e)
  ]

  taken_from-IsOwned :
      (i j : ℕ) (s : Locks T)
      → get_elem? s.handles i ≡ some none
      → IsOwned s
      → IsOwned (taken_from i j s)
  unfolding IsOwned taken_from holds
  taken_from-IsOwned i j s e h q = elim (Option-cases (get_elem? s.handles j)) [
    | inl e' ↦ ground (arith, e, e', h q)
    | inr (p, e') ↦ ground (
      arith,
      e,
      e',
      h q,
      sum_of-set (holds q) s.handles j p none e',
      sum_of-set (holds q) (set s.handles j none) i none p (no_parent-set s.handles i j e),
    )
  ]

  taken_from-none : (i j : ℕ) (s : Locks T) → get_elem? s.handles i ≡ none → taken_from i j s ≡ s
  unfolding taken_from
  taken_from-none i j s e = ground (arith, e)

  assign_handle-IsOwned : (i j : ℕ) (s : Locks T) → IsOwned s → IsOwned (assign_handle i j s)
  unfolding assign_handle
  assign_handle-IsOwned i j s h = elim (maybe_close-no_parent i s) [
    | inl e ↦
        subst IsOwned (sym (taken_from-none i j (maybe_close i s) e)) (maybe_close-IsOwned i s h)
    | inr e ↦ taken_from-IsOwned i j (maybe_close i s) e (maybe_close-IsOwned i s h)
  ]

  write_through-IsOwned :
      (i : ℕ) (v : T) (s : Locks T) → IsOwned s → IsOwned (or_waits s (write_through i v s))
  unfolding IsOwned or_waits write_through set_instance
  write_through-IsOwned i v s h q = elim (Option-cases (get_ptr i s)) [
    | inl e ↦ ground (arith, e, h q)
    | inr (r, e) ↦ ground (arith, e, h q)
  ]

  perform-IsOwned : (o : HandleOp T) (s : Locks T) → IsOwned s → IsOwned (perform o s)
  unfolding perform
  perform-IsOwned (getting r) s h = get_handle-IsOwned r s h
  perform-IsOwned (closing i) s h = maybe_close-IsOwned i s h
  perform-IsOwned (moving i) s h = move_handle-IsOwned i s h
  perform-IsOwned (assigning i j) s h = assign_handle-IsOwned i j s h
  perform-IsOwned (writing i v) s h = write_through-IsOwned i v s h

  perform_all-IsOwned :
      (ops : List (HandleOp T)) (s : Locks T) → IsOwned s → IsOwned (perform_all ops s)
  unfolding perform_all
  perform_all-IsOwned [] s h = h
  perform_all-IsOwned (o ∷ ops) s h = perform_all-IsOwned ops (perform o s) (perform-IsOwned o s h)

  -- new values, and no handles
  abbrev pub new_locks : (ℕ → T) → Locks T
  new_locks init = record {
    objects = λ r. record { instance_value = init r; locked = false };
    handles = [];
  }

  new_locks-IsOwned : (init : ℕ → T) → IsOwned (new_locks init)
  unfolding IsOwned
  new_locks-IsOwned init r = refl

  -- From new values on, in every order of making, moving, assigning, closing and writing through
  -- handles, also of a handle to itself, no value is held by two handles. A handle can be made without
  -- waiting, and the value can be destroyed, exactly where none holds it.
  pub handles_exclusive :
      (init : ℕ → T) (ops : List (HandleOp T)) (r : ℕ)
      → (s : Locks T) × (perform_all ops (new_locks init) ≡ s)
        × (holders r s.handles ≤ 1)
        × (has_value (get_handle r s) ≡ (holders r s.handles == 0))
        × (destructs r s ≡ (holders r s.handles == 0))
  unfolding get_handle destructs IsOwned
  handles_exclusive init ops r =
      let s = perform_all ops (new_locks init) in
      let owned = perform_all-IsOwned ops (new_locks init) (new_locks-IsOwned init) r in
      (s, refl, ground (arith, owned), ground (arith, owned), ground (arith, owned))
