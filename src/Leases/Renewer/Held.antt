-- ===== src/Leases/Renewer/Held.antt =====
-- Which leases a worker holds after each operation of the renewer.
use kclpp.Prelude.{
  ℕ, ◌≤◌, ◌≡◌, inl, inr, refl, String, Bool, true, ◌||◌, not, ◌&&◌, Option, none, some, List, [],
  ◌∷◌, arith, str_eq, str_eq_iff, str_eq_refl, if◌then◌else◌, has_value, Bool-cases,
}
use kclpp.Prelude.Dict.{
  Dict, find_option, remove_if_exists, find_option-insert, find_option-insert_or_update,
  find_option-remove_if_exists,
}
use kclpp.Outcome.{Outcome, success, failure}
use kclpp.Util.{ullong_max}
use kclpp.Leases.Codec.{count_or_zero}
use kclpp.Leases.Lease.{Lease, is_expired, copy_shared_with_incremented_counter}
use kclpp.Leases.Dynamo.{Dynamo, IsDynamo, AwsError}
use kclpp.Leases.Manager
use kclpp.Leases.Manager.{RenewLeaseResult, TakeLeaseResult, take_lease, with_result}
use kclpp.Leases.Manager.Renewal.{take_lease-renewal_fails}
use kclpp.Leases.Renewer.{
  LeaseRenewerState, add_leases_to_renew, add_loop, add_lease, renew_lease, on_renew, drop_lease,
  replace_renewed_lease,
}

-- The lease that a renewal leaves the worker with, from what its callback is told.
abbrev pub renewed_of : Outcome RenewLeaseResult AwsError → Option Lease
renewed_of (failure e) = none
renewed_of (success r) = if r.renewed then some r.lease else none

pub dropped : (key : String) (m : Dict Lease) → find_option (remove_if_exists key m) key ≡ none
dropped key m = rw (find_option-remove_if_exists, str_eq_refl) refl

on_renew-find_option :
    {S : Type 0} (l : Lease) (s : LeaseRenewerState) (sent : Outcome (Unit {0}) AwsError × S)
    (q : String)
    → (let outcome =
          (with_result {B = RenewLeaseResult}
            (record { renewed = true; lease = copy_shared_with_incremented_counter l })
            sent).0 in
        find_option (on_renew l outcome s).owned_leases q
        ≡ (if str_eq l.lease_key q then renewed_of outcome else find_option s.owned_leases q))
unfolding on_renew replace_renewed_lease drop_lease copy_shared_with_incremented_counter
on_renew-find_option l s (success a, st) q = find_option-insert_or_update l.lease_key q _ _
on_renew-find_option l s (failure e, st) q = find_option-remove_if_exists l.lease_key q _

module _ (d : Dynamo) (table : String) where
  -- After `renewLease` of the renewer the worker holds, under the key of the lease, just the lease
  -- that the callback is told was renewed; where it expired or its renewal failed, the worker
  -- holds none under the key. The leases of other keys stay.
  pub renew_lease-find_option :
      (force : Bool) (now : ℕ) (l : Lease) (s : LeaseRenewerState) (st : d.Store) (q : String)
      → (let (outcome, (s', st')) = renew_lease d table force now l s st in
          find_option s'.owned_leases q
          ≡ (if str_eq l.lease_key q then renewed_of outcome else find_option s.owned_leases q))
  unfolding renew_lease drop_lease Manager.renew_lease
  renew_lease-find_option force now l s st q =
      elim (Bool-cases (force || not (is_expired l s.lease_duration now))) [
        | inl e ↦ rw (e, renew_lease) (on_renew-find_option l s _ q)
        | inr e ↦ rw (e, renew_lease) (find_option-remove_if_exists l.lease_key q s.owned_leases)
      ]

  -- A lease whose write is refused is dropped at the renewal, forced or not.
  pub refused-drops :
      (l : Lease) (s : LeaseRenewerState) (st : d.Store) (force : Bool) (now : ℕ) (e : AwsError)
      → Manager.renew_lease d table l st ≡ (failure e, st)
      → (let (outcome, (s', st')) = renew_lease d table force now l s st in
          (find_option s'.owned_leases l.lease_key ≡ none) × (st' ≡ st))
  unfolding renew_lease drop_lease on_renew
  refused-drops l s st force now e refused =
      elim (Bool-cases (force || not (is_expired l s.lease_duration now))) [
        | inl b ↦ rw (b, renew_lease) (rw refused (dropped l.lease_key _, refl))
        | inr b ↦ rw (b, renew_lease) (dropped l.lease_key _, refl)
      ]

  -- A lease that `takeLease` hands on is dropped by the renewer at its first renewal, forced or
  -- not, and the table stays as it was. The old counter fits in 64 bits. The service behaves as
  -- documented.
  pub take_lease-renew_lease_drops :
      IsDynamo d
      → (l : Lease) (w : String) (st st' : d.Store) (r : TakeLeaseResult) (force : Bool) (now : ℕ)
        (s : LeaseRenewerState)
      → count_or_zero l.lease_counter ≤ ullong_max
      → take_lease d table l w st ≡ (success r, st')
      → (let (outcome, (s', st'')) = renew_lease d table force now r.lease s st' in
          (find_option s'.owned_leases r.lease.lease_key ≡ none) × (st'' ≡ st'))
  take_lease-renew_lease_drops laws l w st st' r force now s fits h =
      let (_, _, x, refused) = take_lease-renewal_fails d laws table l w st st' r fits h in
      refused-drops r.lease s st' force now x refused

-- The first of the leases under a key that `addLeasesToRenew` does not pass over.
abbrev pub first_renewable : String → List Lease → Option Lease
first_renewable q [] = none
first_renewable q (l ∷ ls) =
    let rest = first_renewable q ls in
    if str_eq l.lease_key q && has_value l.last_counter_increment_nanoseconds then some l else rest

abbrev pub or_else : Option Lease → Option Lease → Option Lease
or_else none o = o
or_else (some l) o = some l

add_loop-find_option :
    (ls : List Lease) (m : Dict Lease) (q : String)
    → find_option (add_loop ls m) q ≡ or_else (find_option m q) (first_renewable q ls)
unfolding add_loop
add_loop-find_option [] m q = ground arith
add_loop-find_option (l ∷ ls) m q = ground (
  arith,
  add_loop-find_option ls (add_lease l m) q,
  find_option-insert l.lease_key q l m,
  str_eq_iff l.lease_key q,
)

-- `addLeasesToRenew` keeps every lease that is held, even an outdated one, and adds under each
-- other key the first lease whose last increment is known.
pub add_leases_to_renew-find_option :
    (ls : List Lease) (s : LeaseRenewerState) (q : String)
    → find_option (add_leases_to_renew ls s).owned_leases q
      ≡ or_else (find_option s.owned_leases q) (first_renewable q ls)
unfolding add_leases_to_renew
add_leases_to_renew-find_option ls s q = add_loop-find_option ls s.owned_leases q
