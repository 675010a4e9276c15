-- ===== src/Leases/Taker/Replies.antt =====
-- The callbacks of `takeLease` in `takeLeases`, in whatever order the service answers.
use mathlib.Core.List.{append-nil, append_assoc}
use kclpp.Prelude.{
  ℕ, suc, ◌+◌, ◌<◌, ◌≤◌, ◌≡◌, refl, ap, sym, ◌∙◌, false, List, [], ◌∷◌, ◌++◌, length, ◌==◌,
  if◌then◌else◌, arith, Bool-cases, inl, inr,
}
use kclpp.Outcome.{Outcome}
use kclpp.AsyncGroup.{post_and_elect_early, post_and_elect_last}
use kclpp.Util.{ull_mod}
use kclpp.Leases.Lease.{Lease}
use kclpp.Leases.Dynamo.{AwsError}
use kclpp.Leases.Manager.{TakeLeaseResult}
use kclpp.Leases.Taker.Taking.{TakeLeasesAsyncContext, new_context, taken_of, on_take}

abbrev Answer : Type 0
Answer = Outcome TakeLeaseResult AwsError

-- The callbacks, in the order in which the answers come, and all their replies.
unfoldable pub on_answers : List Answer → TakeLeasesAsyncContext → List (List Lease)
unfolding on_take
on_answers [] ctx = []
on_answers (o ∷ os) ctx =
    let (reply, ctx') = on_take o ctx in let rest = on_answers os ctx' in reply ++ rest

-- The leases that the answers grant, in their order.
abbrev pub taken_by : List Answer → List Lease
taken_by [] = []
taken_by (o ∷ os) = taken_of o ++ taken_by os

on_answers-early :
    (os : List Answer) (ctx : TakeLeasesAsyncContext)
    → ctx.async_group.counter + length os < ctx.async_group.target
    → ctx.async_group.target < ull_mod
    → on_answers os ctx ≡ []
unfolding on_answers
on_answers-early [] ctx h w = refl
on_answers-early (o ∷ os) ctx h w =
    rw (post_and_elect_early ctx.async_group (omega arith) w, on_answers)
      (on_answers-early os _ (omega arith) w)

on_answers-last :
    (o : Answer) (os : List Answer) (ctx : TakeLeasesAsyncContext)
    → ctx.async_group.counter + suc (length os) ≡ ctx.async_group.target
    → ctx.async_group.target < ull_mod
    → ctx.async_group.leader_chosen ≡ false
    → on_answers (o ∷ os) ctx ≡ (ctx.taken_leases ++ taken_by (o ∷ os)) ∷ []
unfolding on_answers
on_answers-last o [] ctx h w c =
    rw (post_and_elect_last ctx.async_group h w c, on_answers)
      (ap (λ r. (ctx.taken_leases ++ r) ∷ []) (sym (append-nil _)))
on_answers-last o (p ∷ ps) ctx h w c =
    rw (post_and_elect_early ctx.async_group (omega arith) w, on_answers)
      (on_answers-last p ps _ (omega arith) w c
        ∙ ap (λ r. r ∷ []) (append_assoc ctx.taken_leases _ _))

-- Of `n` requests to take a lease, in whatever order they are answered and whether they succeed or
-- fail, the first `n - 1` answers make no reply, and the last makes exactly one, which names the
-- leases that were granted, in the order of the answers. There is a request, and there are fewer
-- than 2 ^ 64.
pub on_answers-once :
    (os : List Answer) (n : ℕ)
    → 0 < n
    → length os ≤ n
    → n < ull_mod
    → on_answers os (new_context n) ≡ (if length os == n then taken_by os ∷ [] else [])
unfolding on_answers
on_answers-once [] n p h w = let none_yet : (0 == n) ≡ false = ground arith in rw none_yet refl
on_answers-once (o ∷ os) n p h w = elim (Bool-cases (suc (length os) == n)) [
  | inl e ↦ rw e (on_answers-last o os (new_context n) (ground arith) w refl)
  | inr e ↦ rw e (on_answers-early (o ∷ os) (new_context n) (ground arith) w)
]
