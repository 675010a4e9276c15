-- ===== src/Leases/Cluster/Writes.antt =====
-- What one conditional write does to the counter of one lease in the table.
use kclpp.Prelude.{
  ℕ, suc, ◌<◌, ◌≡◌, ◌≢◌, ◌⊎◌, inl, inr, ap, sym, ◌∙◌, String, true, false, Option, none, some,
  arith, Bool-cases, str_eq, str_eq_iff, subst,
}
use kclpp.Prelude.Dict.{find_option}
use kclpp.Outcome.{Outcome, success, failure}
use kclpp.Util.{print_ull, ull_mod}
use kclpp.Util.Decimal.{print_ull_injective}
use kclpp.Leases.Lease.{Lease}
use kclpp.Leases.Codec.{number}
use kclpp.Leases.Dynamo.{Dynamo, IsDynamo, IsApplied, AwsError, meets_one, item_or_key}
use kclpp.Leases.Helpers.{
  UpdateLeaseParams, expect_counter, next_count, make_cas_expectation, make_update_values,
}
use kclpp.Leases.Manager.{internal_update_lease}
use kclpp.Leases.Manager.Updates.{
  list_eq_sound, meets-make_cas_expectation, counter-make_update_values,
}
use kclpp.Leases.Manager.Renewal.{stale_refused, item_of}

-- An expectation that a counter meets is of that counter.
expected_counter :
    (c : Option ℕ) (n : ℕ)
    → meets_one (expect_counter c) (some (number (print_ull n))) ≡ true
    → c ≡ some n
expected_counter none n h = ground arith
expected_counter (some m) n h =
    ap some (print_ull_injective m n (list_eq_sound (print_ull m) (print_ull n) h))

unexpected_counter :
    (c : Option ℕ) (n : ℕ)
    → c ≢ some n
    → meets_one (expect_counter c) (some (number (print_ull n))) ≡ false
unexpected_counter c n h =
    elim (Bool-cases (meets_one (expect_counter c) (some (number (print_ull n))))) [
      | inl e ↦ absurd (h (expected_counter c n e))
      | inr e ↦ e
    ]

module _ (d : Dynamo) (laws : IsDynamo d) (table key : String) where
  -- The table has the counter `n` for the key.
  abbrev pub HasCounter : d.Store → ℕ → Type 0
  HasCounter st n =
      find_option (item_of d laws table st key) "leaseCounter" ≡ some (number (print_ull n))

  -- A write that was applied is to another lease, or it moves the counter of the table on by one.
  applied-counter :
      (n : ℕ) (l : Lease) (p : UpdateLeaseParams) (st st' : d.Store)
      → suc n < ull_mod
      → HasCounter st n
      → IsApplied d table l.lease_key (make_cas_expectation l) (make_update_values l p) st st'
      → (HasCounter st' n × (l.lease_key ≢ key))
        ⊎ ((l.lease_key ≡ key) × (l.lease_counter ≡ some n) × HasCounter st' (suc n))
  applied-counter n l p st st' fits h (m, e, kept) = elim (Bool-cases (str_eq l.lease_key key)) [
    | inl same ↦
        let k : l.lease_key ≡ key = ground (arith, str_eq_iff l.lease_key key) in
        let met = ((meets-make_cas_expectation l _).0 m).1 in
        let before = ap (λ x. find_option (item_of d laws table st x) "leaseCounter") k ∙ h in
        let c =
          expected_counter l.lease_counter n
            (subst (λ x. meets_one (expect_counter l.lease_counter) x ≡ true) before met) in
        let moved = counter-make_update_values l p (item_of d laws table st l.lease_key) in
        let next : next_count l.lease_counter ≡ suc n = rw c (omega arith) in
        inr (
          k,
          c,
          ap (λ x. find_option (item_of d laws table st' x) "leaseCounter") (sym k)
              ∙ ap (λ x. find_option (item_or_key l.lease_key x) "leaseCounter") e
              ∙ moved
              ∙ ap (λ x. some (number (print_ull x))) next,
        )
    | inr other ↦
        let apart : l.lease_key ≢ key = λ q. ground (arith, q, str_eq_iff l.lease_key key) in
        let same = kept key (λ q. apart (sym q)) in
        inl (ap (λ x. find_option (item_or_key key x) "leaseCounter") same ∙ h, apart)
  ]

  -- A write leaves the counter as it is, or it is a write to this lease that is applied to the counter
  -- of the table, and moves it on by one.
  pub write-counter :
      (n : ℕ) (l : Lease) (p : UpdateLeaseParams) (st st' : d.Store)
      (o : Outcome (Unit {0}) AwsError)
      → suc n < ull_mod
      → HasCounter st n
      → internal_update_lease d table l p st ≡ (o, st')
      → (HasCounter st' n × ((o ≡ success tt) → l.lease_key ≢ key))
        ⊎ ((l.lease_key ≡ key) × (l.lease_counter ≡ some n) × HasCounter st' (suc n))
  unfolding internal_update_lease
  write-counter n l p st st' (failure e) fits h w =
      elim (laws.update_failure table l.lease_key _ _ st st' e w) [
        | inl same ↦ inl (subst (λ x. HasCounter x n) (sym same) h, λ q. cc)
        | inr applied ↦ elim (applied-counter n l p st st' fits h applied) [
          | inl (h', apart) ↦ inl (h', λ q. apart)
          | inr moved ↦ inr moved
        ]
      ]
  write-counter n l p st st' (success u) fits h w =
      let (m, e) = laws.update_success table l.lease_key _ _ st st' w in
      let kept = λ (other : String). laws.update_others table l.lease_key other _ _ st st' w in
      elim (applied-counter n l p st st' fits h (m, e, kept)) [
        | inl (h', apart) ↦ inl (h', λ q. apart)
        | inr moved ↦ inr moved
      ]

  -- A lease with another counter cannot be written.
  pub write-stale :
      (n : ℕ) (l : Lease) (p : UpdateLeaseParams) (st : d.Store)
      → HasCounter st n
      → l.lease_key ≡ key
      → l.lease_counter ≢ some n
      → (e : AwsError) × (internal_update_lease d table l p st ≡ (failure e, st))
  write-stale n l p st h k c =
      let there = ap (λ x. find_option (item_of d laws table st x) "leaseCounter") k ∙ h in
      stale_refused d laws table l p st (rw there (unexpected_counter l.lease_counter n c))
