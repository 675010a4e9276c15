-- ===== src/Guards/Ownership.antt =====
-- Moving guards around neither loses nor doubles what they do in the end.
use kclpp.Prelude.{
  ℕ, ◌+◌, ◌≡◌, refl, ◌∙◌, Option, none, some, List, [], ◌∷◌, arith, get_elem?, get_elem?-set_ne,
  set, sum_of, sum_of-set, if◌then◌else◌, ◌==◌, Bool-cases, inl, inr, Option-cases,
}
use kclpp.Async.Descriptor.{FileDescriptor, maybe_close}
use kclpp.Async.Descriptor
use kclpp.Guards.{
  ScopeGuard, ApiGuard, move_guard, assign_guard, destroy_guard, move_token, assign_token, move_api,
  assign_api, destroy_api,
}

-- A type with a move constructor and a move assignment, and how often the destructor of an object does
-- what is counted.
pub record Movable (A : Type 0) : Type 0 where
  pub move : A → A × A
  pub assign : A → A → A × A
  pub ends : A → ℕ

-- A move hands the duty on, and an assignment exchanges two duties.
pub record IsMovable {A : Type 0} (m : Movable A) : Type 0 where
  pub moved : (a : A) → m.ends (m.move a).0 + m.ends (m.move a).1 ≡ m.ends a
  pub assigned : (a b : A) → m.ends (m.assign a b).0 + m.ends (m.assign a b).1 ≡ m.ends a + m.ends b

-- Objects have numbers. A new object is made from object `i`, or object `i` is assigned from object `j`.
pub data MoveOp : Type 0 where
  construct_from : ℕ → MoveOp
  assign_from : ℕ → ℕ → MoveOp

module _ {A : Type 0} (m : Movable A) where
  -- an operation on objects that do not exist, or on one and the same object, is no move
  abbrev pub perform : MoveOp → List A → List A
  perform (construct_from i) objects = elim (get_elem? objects i) [
    | none ↦ objects
    | some a ↦ (m.move a).0 ∷ set objects i (m.move a).1
  ]
  perform (assign_from i j) objects = if i == j then objects else elim (get_elem? objects i) [
    | none ↦ objects
    | some a ↦ elim (get_elem? objects j) [
      | none ↦ objects
      | some b ↦ set (set objects i (m.assign a b).0) j (m.assign a b).1
    ]
  ]

  unfoldable pub perform_all : List MoveOp → List A → List A
  perform_all [] objects = objects
  perform_all (o ∷ ops) objects = perform_all ops (perform o objects)

  -- what the destructors of all objects do, counted
  abbrev pub ends_all : List A → ℕ
  ends_all objects = sum_of m.ends objects

  module _ (h : IsMovable m) where
    ends_all-perform :
        (o : MoveOp) (objects : List A) → ends_all (perform o objects) ≡ ends_all objects
    ends_all-perform (construct_from i) objects = elim (Option-cases (get_elem? objects i)) [
      | inl e ↦ ground (arith, e)
      | inr (a, e) ↦ ground (arith, e, h.moved a, sum_of-set m.ends objects i a (m.move a).1 e)
    ]
    ends_all-perform (assign_from i j) objects = elim (Bool-cases (i == j)) [
      | inl same ↦ ground (arith, same)
      | inr other ↦ elim (Option-cases (get_elem? objects i)) [
        | inl e ↦ ground (arith, other, e)
        | inr (a, e) ↦ elim (Option-cases (get_elem? objects j)) [
          | inl e' ↦ ground (arith, other, e, e')
          | inr (b, e') ↦
              let kept =
                get_elem?-set_ne objects i j (m.assign a b).0 (λ q. ground (arith, other, q))
                ∙ e' in
              ground (
                arith,
                other,
                e,
                e',
                h.assigned a b,
                sum_of-set m.ends objects i a (m.assign a b).0 e,
                sum_of-set m.ends (set objects i (m.assign a b).0) j b (m.assign a b).1 kept,
              )
        ]
      ]
    ]

    ends_all-perform_all :
        (ops : List MoveOp) (objects : List A)
        → ends_all (perform_all ops objects) ≡ ends_all objects
    unfolding perform_all
    ends_all-perform_all [] objects = refl
    ends_all-perform_all (o ∷ ops) objects =
        ends_all-perform_all ops (perform o objects) ∙ ends_all-perform o objects

abbrev pub one_if : Option ℕ → ℕ → ℕ
one_if none n = 0
one_if (some k) n = if k == n then 1 else 0

-- closing the descriptor `n`
abbrev pub descriptors : ℕ → Movable FileDescriptor
descriptors n = record {
  move = Descriptor.move;
  assign = Descriptor.assign;
  ends = λ f. one_if (maybe_close f).0 n;
}

-- calling the function `f`
abbrev pub scope_guards : ℕ → Movable ScopeGuard
scope_guards f = record {
  move = move_guard;
  assign = assign_guard;
  ends = λ g. one_if (destroy_guard g) f;
}

-- shutting the library down
abbrev pub api_guards : Movable ApiGuard
api_guards = record {
  move = move_api;
  assign = assign_api;
  ends = λ g. if destroy_api g then 1 else 0;
}

descriptors-IsMovable : (n : ℕ) → IsMovable (descriptors n)
unfolding Descriptor.move Descriptor.assign maybe_close
descriptors-IsMovable n = record { moved = λ a. ground arith; assigned = λ a b. ground arith }

scope_guards-IsMovable : (f : ℕ) → IsMovable (scope_guards f)
unfolding move_guard assign_guard destroy_guard move_token assign_token
scope_guards-IsMovable f = record { moved = λ a. ground arith; assigned = λ a b. ground arith }

api_guards-IsMovable : IsMovable api_guards
unfolding move_api assign_api destroy_api
api_guards-IsMovable = record { moved = λ a. ground arith; assigned = λ a b. ground arith }

-- However file descriptors, scope guards and API guards are moved and assigned among objects, the
-- destructors of all of them close each descriptor, call each function, and shut the library down
-- exactly as often as they would have without the moves.
pub moves_conserve :
    (ops : List MoveOp) (n f : ℕ) (ds : List FileDescriptor) (gs : List ScopeGuard)
    (as' : List ApiGuard)
    → (ends_all (descriptors n) (perform_all (descriptors n) ops ds) ≡ ends_all (descriptors n) ds)
      × (ends_all (scope_guards f) (perform_all (scope_guards f) ops gs)
          ≡ ends_all (scope_guards f) gs)
      × (ends_all api_guards (perform_all api_guards ops as') ≡ ends_all api_guards as')
moves_conserve ops n f ds gs as' = (
  ends_all-perform_all (descriptors n) (descriptors-IsMovable n) ops ds,
  ends_all-perform_all (scope_guards f) (scope_guards-IsMovable f) ops gs,
  ends_all-perform_all api_guards api_guards-IsMovable ops as',
)
