-- ===== src/Leases/Taker/Taking.antt =====
-- src/kclpp/leases/LeaseTaker.cpp, `takeLeases`. Its requests may be answered in any order; here
-- they are answered in the order in which they are sent. The calls of the callback are collected
-- in a list, so that it shows how often the callback runs.
use kclpp.Prelude.{
  ℕ, suc, ◌+◌, ◌<◌, ◌≡◌, refl, ap, sym, ◌∙◌, String, Bool, false, List, [], ◌∷◌, ◌++◌, length,
  is_empty, if◌then◌else◌, arith,
}
use mathlib.Core.List.{append-nil, append_assoc}
use kclpp.Outcome.{Outcome, success, failure}
use kclpp.AsyncGroup.{AsyncGroup, create, post_and_elect, post_and_elect_early, post_and_elect_last}
use kclpp.Util.{ull_mod}
use kclpp.Leases.Lease.{Lease}
use kclpp.Leases.Dynamo.{Dynamo, AwsError}
use kclpp.Leases.Manager.{TakeLeaseResult, list_leases, take_lease}
use kclpp.Leases.Taker.{
  LeaseTakerState, update_all_leases, get_expired_leases, compute_leases_to_take,
}

pub record TakeLeasesAsyncContext : Type 0 where
  pub async_group : AsyncGroup
  pub taken_leases : List Lease

abbrev pub new_context : ℕ → TakeLeasesAsyncContext
new_context n = record { async_group = create n; taken_leases = [] }

-- the lease of an outcome that says it was taken
abbrev pub taken_of : Outcome TakeLeaseResult AwsError → List Lease
taken_of (failure e) = []
taken_of (success r) = if r.taken then r.lease ∷ [] else []

-- the callback of one `takeLease`: the reply, where it is the one that replies
unfoldable pub on_take :
    Outcome TakeLeaseResult AwsError
    → TakeLeasesAsyncContext
    → List (List Lease) × TakeLeasesAsyncContext
on_take outcome ctx =
    let taken = ctx.taken_leases ++ taken_of outcome in
    let (leads, group) = post_and_elect ctx.async_group in
    if leads
    then (taken ∷ [], record { async_group = group; taken_leases = [] })
    else ([], record { async_group = group; taken_leases = taken })

module _ (d : Dynamo) (table_name : String) where
  unfoldable pub take_each :
      String → List Lease → TakeLeasesAsyncContext → d.Store → List (List Lease) × d.Store
  unfolding on_take
  take_each worker [] ctx st = ([], st)
  take_each worker (l ∷ ls) ctx st =
      let (outcome, st') = take_lease d table_name l worker st in
      let (reply, ctx') = on_take outcome ctx in
      let (replies, st'') = take_each worker ls ctx' st' in (reply ++ replies, st'')

  replies : List (List Lease) × d.Store → List (Outcome (List Lease) AwsError) × d.Store
  replies ([], st) = ([], st)
  replies (r ∷ rs, st) = let (rest, st') = replies (rs, st) in (success r ∷ rest, st')

  after_update :
      (List Lease → List Lease)
      → Outcome (Unit {0}) AwsError
      → LeaseTakerState
      → d.Store
      → List (Outcome (List Lease) AwsError) × d.Store
  unfolding replies take_each
  after_update shuffle (failure e) s st = (failure e ∷ [], st)
  after_update shuffle (success u) s st =
      let to_take = compute_leases_to_take shuffle s (get_expired_leases s) in
      if is_empty to_take
      then (success [] ∷ [], st)
      else replies (take_each s.params.worker_id to_take (new_context (length to_take)) st)

  -- `takeLeases`: the calls of the callback, and the states of the taker and of the service
  unfoldable pub take_leases :
      (List Lease → List Lease)
      → Bool
      → ℕ
      → LeaseTakerState
      → d.Store
      → List (Outcome (List Lease) AwsError) × (LeaseTakerState × d.Store)
  unfolding after_update
  take_leases shuffle errno now s st =
      let (scanned, errno') = list_leases d table_name errno st in
      let (outcome, s') = update_all_leases scanned now s in
      let (calls, st') = after_update shuffle outcome s' st in (calls, (s', st'))

  -- The leases that the service grants, when they are asked for one after the other.
  abbrev pub granted : String → List Lease → d.Store → List Lease
  granted worker [] st = []
  granted worker (l ∷ ls) st =
      let (outcome, st') = take_lease d table_name l worker st in
      taken_of outcome ++ granted worker ls st'

  take_each-granted :
      (worker : String) (l : Lease) (ls : List Lease) (ctx : TakeLeasesAsyncContext) (st : d.Store)
      → ctx.async_group.counter + suc (length ls) ≡ ctx.async_group.target
      → ctx.async_group.target < ull_mod
      → ctx.async_group.leader_chosen ≡ false
      → (take_each worker (l ∷ ls) ctx st).0 ≡ (ctx.taken_leases ++ granted worker (l ∷ ls) st) ∷ []
  unfolding take_each
  take_each-granted worker l [] ctx st h w c =
      rw (post_and_elect_last ctx.async_group h w c, take_each)
        (ap (λ r. (ctx.taken_leases ++ r) ∷ []) (sym (append-nil _)))
  take_each-granted worker l (m ∷ ms) ctx st h w c =
      rw (post_and_elect_early ctx.async_group (omega arith) w, take_each)
        (take_each-granted worker m ms _ _ (omega arith) w c
          ∙ ap (λ r. r ∷ []) (append_assoc ctx.taken_leases _ _))

  -- What the callback of `takeLeases` is told, from the outcome of the scan.
  abbrev pub take_leases_reply :
      (List Lease → List Lease)
      → Outcome (Unit {0}) AwsError
      → LeaseTakerState
      → d.Store
      → Outcome (List Lease) AwsError
  take_leases_reply shuffle (failure e) s st = failure e
  take_leases_reply shuffle (success u) s st =
      success
        (granted s.params.worker_id (compute_leases_to_take shuffle s (get_expired_leases s)) st)

  replies_one :
      (rs : List (List Lease)) (st : d.Store) (r : List Lease)
      → rs ≡ r ∷ []
      → (replies (rs, st)).0 ≡ success r ∷ []
  unfolding replies
  replies_one rs st r h = rw h refl

  take_each-reply :
      (worker : String) (ls : List Lease) (st : d.Store)
      → length ls < ull_mod
      → (if is_empty ls
          then (success [] ∷ [], st)
          else replies (take_each worker ls (new_context (length ls)) st)).0
        ≡ success (granted worker ls st) ∷ []
  take_each-reply worker [] st h = refl
  take_each-reply worker (l ∷ ls) st h =
      replies_one _ _ _
        (take_each-granted worker l ls (new_context (length (l ∷ ls))) st (omega arith) h refl)

  after_update-reply :
      (shuffle : List Lease → List Lease) (outcome : Outcome (Unit {0}) AwsError)
      (s : LeaseTakerState) (st : d.Store)
      → length (compute_leases_to_take shuffle s (get_expired_leases s)) < ull_mod
      → (after_update shuffle outcome s st).0 ≡ take_leases_reply shuffle outcome s st ∷ []
  unfolding after_update
  after_update-reply shuffle (failure e) s st h = refl
  after_update-reply shuffle (success u) s st h = take_each-reply s.params.worker_id _ st h

  -- `takeLeases` calls its callback exactly once, whatever the table and the service do. It tells
  -- of the error of the scan, or else of exactly the leases that were granted, of those that
  -- `computeLeasesToTake` chose from the scanned state. The number of the chosen leases is below
  -- 2 ^ 64.
  pub take_leases-once :
      (shuffle : List Lease → List Lease) (errno : Bool) (now : ℕ) (s : LeaseTakerState)
      (st : d.Store)
      → (let s' = (update_all_leases (list_leases d table_name errno st).0 now s).1 in
          length (compute_leases_to_take shuffle s' (get_expired_leases s')) < ull_mod)
      → (take_leases shuffle errno now s st).0 ≡ (
          let (outcome, s') = update_all_leases (list_leases d table_name errno st).0 now s in
          take_leases_reply shuffle outcome s' st ∷ [])
  unfolding take_leases
  take_leases-once shuffle errno now s st h =
      let (outcome, s') = update_all_leases (list_leases d table_name errno st).0 now s in
      after_update-reply shuffle outcome s' st h
