-- ===== src/Leases/Manager/Renewal.antt =====
-- Conditional writes to a lease: what a successful one leaves in the table, and which ones fail.
use kclpp.Prelude.{
  ap, ◌∙◌, ℕ, ◌+◌, ◌%◌, ◌≤◌, ◌≡◌, inl, inr, refl, String, true, false, Option, none, some, arith,
  Bool-cases,
}
use kclpp.Prelude.Dict.{find_option}
use kclpp.Outcome.{Outcome, success, failure}
use kclpp.Util.{print_ull, ullong_max, ull_mod}
use kclpp.Util.Decimal.{print_ull_injective}
use kclpp.Leases.Lease.{Lease, incremented, copy_shared_with_incremented_counter}
use kclpp.Leases.Codec.{DynamoDict, text, number, count_or_zero}
use kclpp.Leases.Dynamo.{
  Dynamo, IsDynamo, AwsError, meets, meets_one, apply_updates, item_or_key, list_eq,
}
use kclpp.Leases.Helpers.{
  make_cas_expectation, make_update_values, UpdateLeaseParams, default_update, expect_counter,
  next_count,
}
use kclpp.Leases.Manager.{
  renew_lease, take_lease, TakeLeaseResult, RenewLeaseResult, internal_update_lease, with_result,
}
use kclpp.Leases.Manager.Updates.{
  list_eq_sound, list_eq_refl, meets-make_cas_expectation, counter-make_update_values,
  owner-default_update, owner-take,
}

pub with_result-eq_success :
    {S A B : Type 0} (b c : B) (r : Outcome A AwsError × S) (st : S)
    → with_result b r ≡ (success c, st)
    → (a : A) × (r ≡ (success a, st)) × (c ≡ b)
with_result-eq_success b c (success a, s) st h = (a, ground arith, ground arith)
with_result-eq_success b c (failure e, s) st h = ground arith

-- A counter that has moved on meets no expectation of the old one.
stale_counter :
    (n : Option ℕ)
    → count_or_zero n ≤ ullong_max
    → meets_one (expect_counter n) (some (number (print_ull (next_count n)))) ≡ false
stale_counter none h = refl
stale_counter (some n) h =
    elim (Bool-cases (list_eq (print_ull n) (print_ull (next_count (some n))))) [
      | inl e ↦ absurd (
          omega (
            arith,
            print_ull_injective n (next_count (some n))
                (list_eq_sound (print_ull n) (print_ull (next_count (some n))) e),
          ))
      | inr e ↦ e
    ]

meets_incremented :
    (n : Option ℕ)
    → meets_one (expect_counter (incremented n)) (some (number (print_ull (next_count n)))) ≡ true
unfolding print_ull
meets_incremented none = refl
meets_incremented (some n) =
    let same : (1 + n) % ull_mod ≡ (n + 1) % ull_mod = omega arith in
    rw same (list_eq_refl (print_ull ((n + 1) % ull_mod)))

module _ (d : Dynamo) (laws : IsDynamo d) (table : String) where
  abbrev pub item_of : d.Store → String → DynamoDict
  item_of st key = item_or_key key (d.item st table key)

  pub internal_success :
      (l : Lease) (p : UpdateLeaseParams) (st st' : d.Store)
      → internal_update_lease d table l p st ≡ (success tt, st')
      → (meets (make_cas_expectation l) (item_of st l.lease_key) ≡ true)
        × (item_of st' l.lease_key
            ≡ apply_updates (make_update_values l p) (item_of st l.lease_key))
  unfolding internal_update_lease
  internal_success l p st st' h =
      let (m, e) = laws.update_success table l.lease_key _ _ st st' h in (m, rw e refl)

  pub stale_refused :
      (m : Lease) (q : UpdateLeaseParams) (st : d.Store)
      → meets_one
          (expect_counter m.lease_counter)
          (find_option (item_of st m.lease_key) "leaseCounter")
        ≡ false
      → (e : AwsError) × (internal_update_lease d table m q st ≡ (failure e, st))
  unfolding internal_update_lease
  stale_refused m q st h =
      laws.update_refused table m.lease_key _ _ st
        (ground (arith, meets-make_cas_expectation m (item_of st m.lease_key)))

  -- Two conditional writes that start from the same counter of a lease exclude each other: after
  -- the first has succeeded, the second fails, whoever sends it and whatever it would change, and
  -- leaves the table as it is. The two have one key, and their counter fits in 64 bits. The
  -- service behaves as documented.
  pub internal_update_lease_exclusive :
      (l m : Lease) (p q : UpdateLeaseParams) (st st' : d.Store)
      → count_or_zero l.lease_counter ≤ ullong_max
      → m.lease_key ≡ l.lease_key
      → m.lease_counter ≡ l.lease_counter
      → internal_update_lease d table l p st ≡ (success tt, st')
      → (e : AwsError) × (internal_update_lease d table m q st' ≡ (failure e, st'))
  unfolding internal_update_lease
  internal_update_lease_exclusive l m p q st st' fits same_key same_counter h =
      let (_, e) = internal_success l p st st' h in
      let moved = counter-make_update_values l p (item_of st l.lease_key) in
      stale_refused m q st'
        (rw (same_key, same_counter, e, moved) (stale_counter l.lease_counter fits))

  pub renew_lease-internal :
      (l : Lease) (st st' : d.Store) (r : RenewLeaseResult)
      → renew_lease d table l st ≡ (success r, st')
      → (internal_update_lease d table l default_update st ≡ (success tt, st'))
        × (r ≡ record { renewed = true; lease = copy_shared_with_incremented_counter l })
  unfolding renew_lease
  renew_lease-internal l st st' r h = let (a, e, f) = with_result-eq_success _ r _ st' h in (e, f)

  pub take_lease-internal :
      (l : Lease) (w : String) (st st' : d.Store) (r : TakeLeaseResult)
      → take_lease d table l w st ≡ (success r, st')
      → (internal_update_lease d table l (record default_update { new_owner = some w }) st
          ≡ (success tt, st'))
        × (r ≡ record { taken = true; lease = l })
  unfolding take_lease
  take_lease-internal l w st st' r h = let (a, e, f) = with_result-eq_success _ r _ st' h in (e, f)

  -- A lease that a worker has renewed can be renewed again: the lease that `renewLease` hands to
  -- its callback has the key of the old one, and in the table that the renewal left it meets the
  -- condition of the next write. The service behaves as documented.
  pub renew_lease-renewable :
      (l : Lease) (st st' : d.Store) (r : RenewLeaseResult)
      → renew_lease d table l st ≡ (success r, st')
      → (r.lease.lease_key ≡ l.lease_key)
        × (meets (make_cas_expectation r.lease) (item_of st' l.lease_key) ≡ true)
  unfolding copy_shared_with_incremented_counter
  renew_lease-renewable l st st' r h =
      let (h', f) = renew_lease-internal l st st' r h in
      let (m, e) = internal_success l default_update st st' h' in
      let owned = (meets-make_cas_expectation l (item_of st l.lease_key)).0 m in
      rw f (
        refl,
        (meets-make_cas_expectation (copy_shared_with_incremented_counter l)
              (item_of st' l.lease_key)).1
            (
              rw e (rw (owner-default_update l) owned.0),
              rw e (
                  rw (counter-make_update_values l default_update)
                    (meets_incremented l.lease_counter)),
            ),
      )

  -- A lease that a worker has taken stands in the table under the new owner and the next counter,
  -- but the lease that `takeLease` hands on keeps the old counter: renewing it fails and leaves
  -- the table as it is. The old counter fits in 64 bits. The service behaves as documented.
  pub take_lease-renewal_fails :
      (l : Lease) (w : String) (st st' : d.Store) (r : TakeLeaseResult)
      → count_or_zero l.lease_counter ≤ ullong_max
      → take_lease d table l w st ≡ (success r, st')
      → (find_option (item_of st' l.lease_key) "leaseOwner" ≡ some (text w))
        × (find_option (item_of st' l.lease_key) "leaseCounter"
            ≡ some (number (print_ull (next_count l.lease_counter))))
        × (e : AwsError) × (renew_lease d table r.lease st' ≡ (failure e, st'))
  unfolding renew_lease
  take_lease-renewal_fails l w st st' r fits h =
      let p : UpdateLeaseParams = record default_update { new_owner = some w } in
      let (h', f) = take_lease-internal l w st st' r h in
      let (m, e) = internal_success l p st st' h' in
      let owned = meets-make_cas_expectation l (item_of st l.lease_key) in
      let (x, refused) =
        internal_update_lease_exclusive l l p default_update st st' fits refl refl h' in
      (
        rw e (owner-take l w _ (owned.0 m).0),
        rw e (counter-make_update_values l p _),
        x,
        ap (λ x. renew_lease d table x.lease st') f ∙ ap (with_result _) refused,
      )
