-- ===== src/Leases/Renewer.antt =====
-- include/kclpp/leases/LeaseRenewer.h and src/kclpp/leases/LeaseRenewer.cpp: the leases that a
-- worker holds. The clock is an argument of a call that reads it. Each request is answered before
-- the next one is sent, in the order of the loop. The calls of a callback are collected in a list.
pub mod Held
pub mod Rivals
pub mod Takeover
pub mod Listed
pub mod Replies
pub mod Invariant
pub mod Update
use kclpp.Prelude.{
  ℕ, suc, ◌+◌, String, Bool, true, false, ◌||◌, not, Option, none, some, List, [], ◌∷◌, ◌++◌,
  length, is_empty, str_eq, if◌then◌else◌, has_value,
}
use kclpp.Prelude.Dict.{Dict, find_option, values, insert, insert_or_update, remove_if_exists}
use kclpp.Outcome.{Outcome, success, failure, is_success}
use kclpp.AsyncGroup.{AsyncGroup, create, post_and_elect}
use kclpp.Leases.Lease.{Lease, is_expired, copy_shared, copy_shared_with_new_concurrency_token}
use kclpp.Leases.Dynamo.{Dynamo, AwsError}
use kclpp.Leases.Manager
use kclpp.Leases.Manager.{RenewLeaseResult, UpdateLeaseResult, list_leases}

pub record LeaseRenewerState : Type 0 where
  pub lease_duration : ℕ
  pub owned_leases : Dict Lease

abbrev with_owned : LeaseRenewerState → Dict Lease → LeaseRenewerState
with_owned s m = record s { owned_leases = m }

-- one round: a lease whose last increment is unknown is passed over, and so is a key that is there
abbrev add_lease : Lease → Dict Lease → Dict Lease
add_lease l m =
    if has_value l.last_counter_increment_nanoseconds
    then insert l.lease_key (copy_shared_with_new_concurrency_token l) m
    else m

add_loop : List Lease → Dict Lease → Dict Lease
add_loop [] m = m
add_loop (l ∷ ls) m = add_loop ls (add_lease l m)

unfoldable pub add_leases_to_renew : List Lease → LeaseRenewerState → LeaseRenewerState
unfolding add_loop
add_leases_to_renew ls s = with_owned s (add_loop ls s.owned_leases)

unfoldable pub clear_held_leases : LeaseRenewerState → LeaseRenewerState
clear_held_leases s = with_owned s []

unfoldable pub drop_lease : Lease → LeaseRenewerState → LeaseRenewerState
drop_lease l s = with_owned s (remove_if_exists l.lease_key s.owned_leases)

unfoldable pub replace_renewed_lease : Lease → LeaseRenewerState → LeaseRenewerState
replace_renewed_lease l s = with_owned s (insert_or_update l.lease_key l s.owned_leases)

unfoldable pub safe_insert_lease : Lease → LeaseRenewerState → LeaseRenewerState
safe_insert_lease l s = with_owned s (insert_or_update l.lease_key l s.owned_leases)

unfoldable pub get_copy_of_held_lease : String → ℕ → LeaseRenewerState → Option Lease
get_copy_of_held_lease key now s = elim (find_option s.owned_leases key) [
  | none ↦ none
  | some l ↦ if is_expired l s.lease_duration now then none else some (copy_shared l)
]

unfoldable pub get_currently_held_lease : String → ℕ → LeaseRenewerState → Option Lease
unfolding get_copy_of_held_lease
get_currently_held_lease key now s = get_copy_of_held_lease key now s

copy_entry : String → Option Lease → Dict Lease → Dict Lease
copy_entry key none m = m
copy_entry key (some l) m = insert key l m

copy_loop : Dict Lease → ℕ → LeaseRenewerState → Dict Lease → Dict Lease
unfolding get_copy_of_held_lease copy_entry
copy_loop [] now s m = m
copy_loop ((k, l) ∷ rest) now s m =
    copy_loop rest now s (copy_entry k (get_copy_of_held_lease k now s) m)

unfoldable pub copy_currently_held_leases : ℕ → LeaseRenewerState → Dict Lease
unfolding copy_loop
copy_currently_held_leases now s = copy_loop s.owned_leases now s []

on_renew : Lease → Outcome RenewLeaseResult AwsError → LeaseRenewerState → LeaseRenewerState
unfolding replace_renewed_lease drop_lease
on_renew l (success r) s = replace_renewed_lease r.lease s
on_renew l (failure e) s = drop_lease l s

unfoldable pub on_init_renewal :
    Outcome RenewLeaseResult AwsError → LeaseRenewerState → LeaseRenewerState
unfolding safe_insert_lease
on_init_renewal (success r) s = if r.renewed then safe_insert_lease r.lease s else s
on_init_renewal (failure e) s = s

-- the callback of `initialize` where it is the one that replies
on_last : Bool → LeaseRenewerState → List Bool × LeaseRenewerState
unfolding add_leases_to_renew
on_last false s = ([], s)
on_last true s = (true ∷ [], add_leases_to_renew (values s.owned_leases) s)

on_update :
    Outcome UpdateLeaseResult AwsError
    → LeaseRenewerState
    → Outcome UpdateLeaseResult AwsError × LeaseRenewerState
unfolding safe_insert_lease
on_update (failure e) s = (failure e, s)
on_update (success r) s = (success r, if r.updated then safe_insert_lease r.lease s else s)

-- the token of the held lease is there and another one
-- the two DCHECKs of `updateLease`
unfoldable pub carries : String → Lease → Bool
carries token l = elim l.concurrency_token [ none ↦ false | some t ↦ str_eq t token ]

abbrev token_differs : Option String → String → Bool
token_differs none token = false
token_differs (some t) token = not (str_eq t token)

module _ (d : Dynamo) (table_name : String) where
  -- `renewLease`: what its callback is told, and the states of the renewer and of the service
  unfoldable pub renew_lease :
      Bool
      → ℕ
      → Lease
      → LeaseRenewerState
      → d.Store
      → Outcome RenewLeaseResult AwsError × (LeaseRenewerState × d.Store)
  unfolding on_renew drop_lease
  renew_lease renew_even_if_expired now l s st =
      if renew_even_if_expired || not (is_expired l s.lease_duration now)
      then (let (outcome, st') = Manager.renew_lease d table_name l st in
          (outcome, (on_renew l outcome s, st')))
      else (success (record { renewed = false; lease = l }), (drop_lease l s, st))

  -- the loop of `renewLeases`; `clock i` is the time of the reading before the `i`-th request
  renew_each :
      (ℕ → ℕ)
      → ℕ
      → List Lease
      → AsyncGroup
      → LeaseRenewerState
      → d.Store
      → List Bool × (LeaseRenewerState × d.Store)
  unfolding renew_lease
  renew_each clock i [] group s st = ([], (s, st))
  renew_each clock i (l ∷ ls) group s st =
      let (outcome, (s', st')) = renew_lease false (clock i) l s st in
      let (leads, group') = post_and_elect group in
      let (replies, after) = renew_each clock (suc i) ls group' s' st' in
      ((if leads then true ∷ [] else []) ++ replies, after)

  -- `renewLeases`: the calls of its callback, each of which is told `succeeded`
  unfoldable pub renew_leases :
      (ℕ → ℕ) → LeaseRenewerState → d.Store → List Bool × (LeaseRenewerState × d.Store)
  unfolding renew_each
  renew_leases clock s st =
      let to_renew = values s.owned_leases in
      renew_each clock 0 to_renew (create (length to_renew)) s st

  -- the loop of `initialize`, over all the leases that were listed, whoever owns them
  init_each :
      List Lease
      → AsyncGroup
      → LeaseRenewerState
      → d.Store
      → List Bool × (LeaseRenewerState × d.Store)
  unfolding renew_lease on_init_renewal on_last
  init_each [] group s st = ([], (s, st))
  init_each (l ∷ ls) group s st =
      let (outcome, (s', st')) = renew_lease true 0 l s st in
      let (leads, group') = post_and_elect group in
      let (reply, s'') = on_last leads (on_init_renewal outcome s') in
      let (replies, after) = init_each ls group' s'' st' in (reply ++ replies, after)

  pub init_replies :
      List Bool × (LeaseRenewerState × d.Store)
      → List (Outcome Bool AwsError) × (LeaseRenewerState × d.Store)
  init_replies ([], after) = ([], after)
  init_replies (b ∷ bs, after) =
      let (rest, after') = init_replies (bs, after) in (success b ∷ rest, after')

  on_list :
      Outcome (List Lease) AwsError
      → LeaseRenewerState
      → d.Store
      → List (Outcome Bool AwsError) × (LeaseRenewerState × d.Store)
  unfolding init_each init_replies
  on_list (failure e) s st = (failure e ∷ [], (s, st))
  on_list (success leases) s st =
      if is_empty leases
      then (success true ∷ [], (s, st))
      else init_replies (init_each leases (create (length leases)) s st)

  -- `initialize`: the calls of its callback, each with the result's `success`
  unfoldable pub initialize :
      Bool
      → LeaseRenewerState
      → d.Store
      → List (Outcome Bool AwsError) × (LeaseRenewerState × d.Store)
  unfolding on_list
  initialize errno s st = on_list (list_leases d table_name errno st).0 s st

  -- `updateLease`; none is a DCHECK that fails, on a lease that does not carry the token
  unfoldable pub update_lease :
      Lease
      → String
      → LeaseRenewerState
      → d.Store
      → Option (Outcome UpdateLeaseResult AwsError × (LeaseRenewerState × d.Store))
  unfolding on_update carries
  update_lease l token s st =
      let refused : Outcome UpdateLeaseResult AwsError × (LeaseRenewerState × d.Store) =
        (success (record { updated = false; lease = l }), (s, st)) in
      if not (carries token l) then none else elim (find_option s.owned_leases l.lease_key) [
        | none ↦ some refused
        | some authoritative ↦
            if token_differs authoritative.concurrency_token token
            then some refused
            else let (outcome, st') = Manager.update_lease d table_name l st in
              let (told, s') = on_update outcome s in some (told, (s', st'))
      ]
