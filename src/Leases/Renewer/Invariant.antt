-- ===== src/Leases/Renewer/Invariant.antt =====
-- The map of the held leases is well formed: no key stands twice, and each lease stands under its
-- own key.
use kclpp.Prelude.{
  ℕ, ◌≡◌, ◌≢◌, inl, inr, refl, ap, String, Bool, true, ◌||◌, not, Option, none, some, List, [], ◌∷◌,
  arith, str_eq, str_eq_iff, str_eq_refl, if◌then◌else◌, has_value, Option-cases, Bool-cases,
}
use kclpp.Prelude.Dict.{
  Dict, find_option, insert, insert_or_update, remove_if_exists, find_option-insert,
  find_option-insert_or_update, find_option-remove_if_exists,
}
use kclpp.Prelude.Dict.Unique.{
  HasUniqueKeys, insert-HasUniqueKeys, insert_or_update-HasUniqueKeys,
  remove_if_exists-HasUniqueKeys,
}
use kclpp.Outcome.{Outcome, success, failure}
use kclpp.Leases.Lease.{Lease, is_expired, copy_shared_with_incremented_counter}
use kclpp.Leases.Dynamo.{Dynamo, AwsError}
use kclpp.Leases.Manager
use kclpp.Leases.Manager.{RenewLeaseResult, with_result}
use kclpp.Leases.Renewer.{
  LeaseRenewerState, add_leases_to_renew, add_loop, renew_lease, on_renew, drop_lease,
  replace_renewed_lease, clear_held_leases, on_init_renewal, safe_insert_lease,
  get_copy_of_held_lease, copy_currently_held_leases, copy_loop, copy_entry,
}

pub record IsHeldMap (m : Dict Lease) : Type 0 where
  pub unique : HasUniqueKeys m
  pub keyed : (k : String) (l : Lease) → find_option m k ≡ some l → l.lease_key ≡ k

insert-IsHeldMap : (l : Lease) (m : Dict Lease) → IsHeldMap m → IsHeldMap (insert l.lease_key l m)
insert-IsHeldMap l m h = record {
  unique = insert-HasUniqueKeys l.lease_key l m h.unique;
  keyed = λ k x e. ground (
    arith,
    find_option-insert l.lease_key k l m,
    h.keyed k x,
    h.keyed l.lease_key x,
    str_eq_iff l.lease_key k,
  );
}

pub insert_or_update-IsHeldMap :
    (l : Lease) (m : Dict Lease) → IsHeldMap m → IsHeldMap (insert_or_update l.lease_key l m)
insert_or_update-IsHeldMap l m h = record {
  unique = insert_or_update-HasUniqueKeys l.lease_key l m h.unique;
  keyed = λ k x e. ground (
    arith,
    find_option-insert_or_update l.lease_key k l m,
    h.keyed k x,
    str_eq_iff l.lease_key k,
  );
}

remove_if_exists-IsHeldMap :
    (key : String) (m : Dict Lease) → IsHeldMap m → IsHeldMap (remove_if_exists key m)
remove_if_exists-IsHeldMap key m h = record {
  unique = remove_if_exists-HasUniqueKeys key m h.unique;
  keyed = λ k x e. ground (arith, find_option-remove_if_exists key k m, h.keyed k x);
}

add_loop-IsHeldMap : (ls : List Lease) (m : Dict Lease) → IsHeldMap m → IsHeldMap (add_loop ls m)
unfolding add_loop
add_loop-IsHeldMap [] m h = h
add_loop-IsHeldMap (l ∷ ls) m h =
    elim (Bool-cases (has_value l.last_counter_increment_nanoseconds)) [
      | inl e ↦ rw (e, add_loop) (add_loop-IsHeldMap ls _ (insert-IsHeldMap l m h))
      | inr e ↦ rw (e, add_loop) (add_loop-IsHeldMap ls m h)
    ]

-- `addLeasesToRenew` keeps the map of the held leases well formed, whatever leases it is given.
pub add_leases_to_renew-IsHeldMap :
    (ls : List Lease) (s : LeaseRenewerState)
    → IsHeldMap s.owned_leases
    → IsHeldMap (add_leases_to_renew ls s).owned_leases
unfolding add_leases_to_renew
add_leases_to_renew-IsHeldMap ls s h = add_loop-IsHeldMap ls s.owned_leases h

on_renew-IsHeldMap :
    {S : Type 0} (l : Lease) (s : LeaseRenewerState) (sent : Outcome (Unit {0}) AwsError × S)
    → IsHeldMap s.owned_leases
    → IsHeldMap
        (on_renew l
          (with_result {B = RenewLeaseResult}
            (record { renewed = true; lease = copy_shared_with_incremented_counter l })
            sent).0
          s).owned_leases
unfolding on_renew replace_renewed_lease drop_lease
on_renew-IsHeldMap l s (success a, st) h = insert_or_update-IsHeldMap _ _ h
on_renew-IsHeldMap l s (failure e, st) h = remove_if_exists-IsHeldMap _ _ h

-- A renewal keeps the map of the held leases well formed, whether it is made, refused or skipped.
pub renew_lease-IsHeldMap :
    (d : Dynamo) (table : String) (force : Bool) (now : ℕ) (l : Lease) (s : LeaseRenewerState)
    (st : d.Store)
    → IsHeldMap s.owned_leases
    → IsHeldMap (renew_lease d table force now l s st).1.0.owned_leases
unfolding renew_lease drop_lease Manager.renew_lease
renew_lease-IsHeldMap d table force now l s st h =
    elim (Bool-cases (force || not (is_expired l s.lease_duration now))) [
      | inl e ↦ rw (e, renew_lease) (on_renew-IsHeldMap l s _ h)
      | inr e ↦ rw (e, renew_lease) (remove_if_exists-IsHeldMap l.lease_key _ h)
    ]

copy_entry-find_option :
    (k q : String) (o : Option Lease) (m : Dict Lease)
    → find_option m k ≡ none
    → find_option (copy_entry k o m) q ≡ (if str_eq k q then o else find_option m q)
unfolding copy_entry
copy_entry-find_option k q none m h = ground (arith, str_eq_iff k q)
copy_entry-find_option k q (some l) m h = rw (find_option-insert, h) refl

copy_loop-find_option :
    (rest : Dict Lease) (now : ℕ) (s : LeaseRenewerState) (m : Dict Lease) (q : String)
    → HasUniqueKeys rest
    → ((k : String) → find_option rest k ≢ none → find_option m k ≡ none)
    → find_option (copy_loop rest now s m) q
      ≡ (if has_value (find_option rest q) then get_copy_of_held_lease q now s else find_option m q)
unfolding copy_loop find_option
copy_loop-find_option [] now s m q u fresh = refl
copy_loop-find_option ((k, l) ∷ rest) now s m q u fresh =
    let o = get_copy_of_held_lease k now s in
    let free : find_option m k ≡ none =
      fresh k (rw (str_eq_refl, find_option) (λ e. ground (arith, e))) in
    let later : (j : String) → find_option rest j ≢ none → find_option (copy_entry k o m) j ≡ none =
      λ j there.
        ground (arith, str_eq_iff k j, u.0, there, copy_entry-find_option k j o m free, fresh j) in
    let step = copy_loop-find_option rest now s (copy_entry k o m) q u.1 later in
    ground (
      arith,
      str_eq_iff k q,
      step,
      u.0,
      copy_entry-find_option k q o m free,
      λ (h : k ≡ q). ap (λ j. get_copy_of_held_lease j now s) h,
    )

-- A copy of the held leases holds, under each key, just the lease that `getCopyOfHeldLease` gives
-- at that time: none where none is held or it expired. The map of held leases is well formed.
pub copy_currently_held_leases-find_option :
    (now : ℕ) (s : LeaseRenewerState) (q : String)
    → IsHeldMap s.owned_leases
    → find_option (copy_currently_held_leases now s) q ≡ get_copy_of_held_lease q now s
unfolding copy_currently_held_leases get_copy_of_held_lease find_option
copy_currently_held_leases-find_option now s q h =
    let same = copy_loop-find_option s.owned_leases now s [] q h.unique (λ k e. refl) in
    elim (Option-cases (find_option s.owned_leases q)) [
      | inl e ↦ rw (same, e) (rw (e, get_copy_of_held_lease) refl)
      | inr (l, e) ↦ rw (same, e) refl
    ]

pub nil-IsHeldMap : IsHeldMap []
unfolding find_option
nil-IsHeldMap = record { unique = tt; keyed = λ k x e. cc }

pub cleared-IsHeldMap : (s : LeaseRenewerState) → IsHeldMap (clear_held_leases s).owned_leases
unfolding clear_held_leases
cleared-IsHeldMap s = nil-IsHeldMap

pub on_init_renewal-IsHeldMap :
    (o : Outcome RenewLeaseResult AwsError) (s : LeaseRenewerState)
    → IsHeldMap s.owned_leases
    → IsHeldMap (on_init_renewal o s).owned_leases
unfolding on_init_renewal safe_insert_lease
on_init_renewal-IsHeldMap (failure e) s h = h
on_init_renewal-IsHeldMap (success r) s h = elim (Bool-cases r.renewed) [
  | inl e ↦ rw e (insert_or_update-IsHeldMap r.lease s.owned_leases h)
  | inr e ↦ rw e h
]
