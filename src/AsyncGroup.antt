-- ===== src/AsyncGroup.antt =====
-- include/kclpp/AsyncGroup.h and src/kclpp/AsyncGroup.cpp: a countdown over the callbacks of one
-- request, and the election of the callback that finishes it. The callbacks run in the event
-- thread, one at a time, so each atomic operation is a step on the record; the compare-and-swap
-- loop of `becomeLeaderCAS` then ends in its first round. Counters are numbers below 2 ^ 64.
use kclpp.Prelude.{
  ℕ, zero, suc, ◌+◌, ◌%◌, ◌<◌, ◌≤◌, ◌≡◌, refl, Bool, true, false, arith, ◌==◌, ltb, ◌&&◌,
  Bool-cases, inl, inr, if◌then◌else◌,
}
use kclpp.Util.{ull_mod}

pub record AsyncGroup : Type 0 where
  pub counter : ℕ
  pub target : ℕ
  pub leader_chosen : Bool

abbrev pub create : ℕ → AsyncGroup
create n = record { counter = 0; target = n; leader_chosen = false }

unfoldable pub is_done : AsyncGroup → Bool
is_done g = g.counter == g.target

unfoldable pub post : AsyncGroup → AsyncGroup
post g = record g { counter = (g.counter + 1) % ull_mod }

unfoldable pub become_leader_cas : AsyncGroup → Bool × AsyncGroup
become_leader_cas g =
    if g.leader_chosen then (false, g) else (true, record g { leader_chosen = true })

unfoldable pub become_leader : AsyncGroup → Bool × AsyncGroup
unfolding become_leader_cas
become_leader g = become_leader_cas g

-- `if (group.isDone() && group.becomeLeader())`: the election is held only once all have posted
elect : Bool → AsyncGroup → Bool × AsyncGroup
unfolding become_leader
elect false g = (false, g)
elect true g = become_leader g

-- what each callback does: post, then ask whether it is the one that finishes
unfoldable pub post_and_elect : AsyncGroup → Bool × AsyncGroup
unfolding post is_done elect
post_and_elect g = let g' = post g in elect (is_done g') g'

-- `n` callbacks in a row: how many of them were elected, and the group after them
unfoldable pub elected : ℕ → AsyncGroup → ℕ × AsyncGroup
elected zero g = (0, g)
elected (suc n) g =
    let (leads, g') = post_and_elect g in
    let (later, g'') = elected n g' in ((if leads then 1 else 0) + later, g'')

pub post_and_elect_early :
    (g : AsyncGroup)
    → g.counter + 1 < g.target
    → g.target < ull_mod
    → post_and_elect g ≡ (false, record g { counter = g.counter + 1 })
unfolding post_and_elect
post_and_elect_early g h w = ground arith

pub elected_early :
    (n : ℕ) (g : AsyncGroup) → g.counter + n < g.target → g.target < ull_mod → (elected n g).0 ≡ 0
unfolding elected
elected_early zero g h w = refl
elected_early (suc n) g h w =
    let rest = elected_early n (record g { counter = g.counter + 1 }) (omega arith) w in
    rw (post_and_elect_early g (omega arith) w, elected) (omega (arith, rest))

pub post_and_elect_last :
    (g : AsyncGroup)
    → g.counter + 1 ≡ g.target
    → g.target < ull_mod
    → g.leader_chosen ≡ false
    → (post_and_elect g).0 ≡ true
unfolding post_and_elect
post_and_elect_last g h w l = ground arith

elected_last :
    (n : ℕ) (g : AsyncGroup)
    → g.counter + suc n ≡ g.target
    → g.target < ull_mod
    → g.leader_chosen ≡ false
    → (elected (suc n) g).0 ≡ 1
unfolding elected
elected_last zero g h w l = rw (post_and_elect_last g (omega arith) w l, elected) refl
elected_last (suc n) g h w l =
    let rest = elected_last n (record g { counter = g.counter + 1 }) (omega arith) w l in
    rw (post_and_elect_early g (omega arith) w, elected) (omega (arith, rest))

-- Of the callbacks of a group made for `n` of them, none of the first `n - 1` is elected, and the
-- last one is: exactly one finishes the request, and none does where there are no callbacks.
pub elected-create :
    (k n : ℕ)
    → k ≤ n
    → n < ull_mod
    → (elected k (create n)).0 ≡ (if (k == n) && ltb 0 n then 1 else 0)
unfolding elected
elected-create zero n h w = ground arith
elected-create (suc k) n h w = elim (Bool-cases (suc k == n)) [
  | inl last ↦ rw last (ground (arith, elected_last k (create n)))
  | inr early ↦ rw early (elected_early (suc k) (create n) (ground arith) w)
]
