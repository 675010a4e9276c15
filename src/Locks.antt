-- ===== src/Locks.antt =====
-- include/kclpp/locks/Synchronized.h: a value with its mutex, and the handles that hold the mutex. The
-- values that are shared, and the handles that exist or existed, have numbers.
pub mod Handles
use kclpp.Prelude.{
  ℕ, Bool, true, false, not, Option, none, some, List, [], ◌∷◌, ◌==◌, get_elem?, set, if◌then◌else◌,
}

-- `Synchronized`: the instance, and whether its mutex is locked
pub record Synchronized (T : Type 0) : Type 0 where
  pub instance_value : T
  pub locked : Bool

-- The values of a program, and the `parent_` of each of its handles. A handle that was destroyed stays
-- in the list without a parent.
pub record Locks (T : Type 0) : Type 0 where
  pub objects : ℕ → Synchronized T
  pub handles : List (Option ℕ)

module _ {T : Type 0} where
  unfoldable pub set_locked : ℕ → Bool → (ℕ → Synchronized T) → ℕ → Synchronized T
  set_locked r b objects q = if q == r then record (objects q) { locked = b } else objects q

  -- `getHandle`, which is `none` while it waits for the mutex
  unfoldable pub get_handle : ℕ → Locks T → Option (Locks T)
  unfolding set_locked
  get_handle r s =
      if (s.objects r).locked
      then none
      else some (record { objects = set_locked r true s.objects; handles = some r ∷ s.handles })

  -- `maybeClose` of handle `i`, which the destructor calls
  unfoldable pub maybe_close : ℕ → Locks T → Locks T
  unfolding set_locked
  maybe_close i s = elim (get_elem? s.handles i) [
    | none ↦ s
    | some p ↦ elim p [
      | none ↦ s
      | some r ↦ record { objects = set_locked r false s.objects; handles = set s.handles i none }
    ]
  ]

  -- the move constructor, which makes a handle from handle `i`
  unfoldable pub move_handle : ℕ → Locks T → Locks T
  move_handle i s = elim (get_elem? s.handles i) [
    | none ↦ s
    | some p ↦ record s { handles = p ∷ set s.handles i none }
  ]

  unfoldable pub taken_from : ℕ → ℕ → Locks T → Locks T
  taken_from i j s = elim (get_elem? s.handles i) [
    | none ↦ s
    | some p ↦ elim (get_elem? s.handles j) [
      | none ↦ s
      | some q ↦ record s { handles = set (set s.handles j none) i q }
    ]
  ]

  -- the move assignment of handle `j` to handle `i`, which may be the same one
  unfoldable pub assign_handle : ℕ → ℕ → Locks T → Locks T
  unfolding taken_from maybe_close
  assign_handle i j s = taken_from i j (maybe_close i s)

  -- `get` of handle `i`; `none` where it has no parent, and the source follows a null pointer
  unfoldable pub get_ptr : ℕ → Locks T → Option ℕ
  get_ptr i s = elim (get_elem? s.handles i) [ none ↦ none | some p ↦ p ]

  unfoldable pub set_instance : ℕ → T → (ℕ → Synchronized T) → ℕ → Synchronized T
  set_instance r v objects q =
      if q == r then record (objects q) { instance_value = v } else objects q

  -- an assignment through `operator*` of handle `i`
  unfoldable pub write_through : ℕ → T → Locks T → Option (Locks T)
  unfolding get_ptr set_instance
  write_through i v s = elim (get_ptr i s) [
    | none ↦ none
    | some r ↦ some (record s { objects = set_instance r v s.objects })
  ]

  -- whether `~Synchronized` comes through, which locks the mutex and unlocks it
  unfoldable pub destructs : ℕ → Locks T → Bool
  destructs r s = not (s.objects r).locked
