-- ===== src/Leases/Cluster/Effects.antt =====
-- What a step of one worker does to the counter of one lease in the table and to the worker's copy.
use kclpp.Prelude.{
  ℕ, suc, ◌<◌, ◌≤◌, ◌≡◌, ◌⊎◌, inl, inr, refl, sym, ◌∙◌, subst, String, Bool, true, ◌||◌, not, none,
  some, arith, str_eq, str_eq_iff, if◌then◌else◌, Bool-cases,
}
use kclpp.Outcome.{Outcome, success, failure}
use kclpp.Util.{ull_mod}
use kclpp.Leases.Lease.{Lease, is_expired, copy_shared_with_incremented_counter}
use kclpp.Leases.Dynamo.{Dynamo, IsDynamo, AwsError}
use kclpp.Leases.Helpers.{UpdateLeaseParams, default_update}
use kclpp.Leases.Manager
use kclpp.Leases.Manager.{
  RenewLeaseResult, TakeLeaseResult, internal_update_lease, take_lease, evict_lease, with_result,
}
use kclpp.Leases.Renewer.{LeaseRenewerState, renew_lease, on_init_renewal, add_leases_to_renew}
use kclpp.Leases.Renewer.Held.{renewed_of, renew_lease-find_option}
use kclpp.Leases.Taker.Taking.{taken_of}
use kclpp.Leases.Cluster.Writes.{HasCounter, write-counter}
use kclpp.Leases.Cluster.Copies.{rank, copy_of, on_init_renewal-copy, add_one-copy, add_none-copy}

module _ (d : Dynamo) (laws : IsDynamo d) (table key : String) where
  -- A renewal keeps the next copy of a successful write, or none of one that failed or was not sent.
  Renewed : Lease → d.Store → Outcome RenewLeaseResult AwsError → d.Store → Type 0
  Renewed l st o st' =
      ((st' ≡ st) × (renewed_of o ≡ none))
      ⊎ ((e : AwsError) × (internal_update_lease d table l default_update st ≡ (failure e, st'))
          × (renewed_of o ≡ none))
      ⊎ ((internal_update_lease d table l default_update st ≡ (success tt, st'))
          × (renewed_of o ≡ some (copy_shared_with_incremented_counter l)))

  sent-Renewed :
      (l : Lease) (st : d.Store) (sent : Outcome (Unit {0}) AwsError × d.Store)
      → internal_update_lease d table l default_update st ≡ sent
      → (let (o, st') =
            with_result {B = RenewLeaseResult}
              (record { renewed = true; lease = copy_shared_with_incremented_counter l })
              sent in
          Renewed l st o st')
  unfolding Renewed internal_update_lease
  sent-Renewed l st (success u, st') w = inr (inr (w, refl))
  sent-Renewed l st (failure e, st') w = inr (inl (e, w, refl))

  renew_lease-Renewed :
      (force : Bool) (now : ℕ) (l : Lease) (s : LeaseRenewerState) (st : d.Store)
      → (let (o, (s', st')) = renew_lease d table force now l s st in Renewed l st o st')
  unfolding renew_lease Manager.renew_lease
  renew_lease-Renewed force now l s st =
      elim (Bool-cases (force || not (is_expired l s.lease_duration now))) [
        | inl e ↦ rw (e, renew_lease) (sent-Renewed l st _ refl)
        | inr e ↦ rw (e, renew_lease) (unfold Renewed in inl (refl, refl))
      ]

  -- What a step of a worker does to the counter `n` of the table and to the worker's copy.
  abbrev pub Effect : ℕ → LeaseRenewerState → LeaseRenewerState → d.Store → Type 0
  Effect n s s' st' =
      (HasCounter d laws table key st' n × (rank (copy_of key s') ≤ rank (copy_of key s)))
      ⊎ (HasCounter d laws table key st' (suc n) × (rank (copy_of key s') ≤ suc (suc n)))

  rank_incremented :
      (l : Lease) (n : ℕ)
      → l.lease_counter ≡ some n
      → suc n < ull_mod
      → rank (some (copy_shared_with_incremented_counter l)) ≡ suc (suc n)
  unfolding copy_shared_with_incremented_counter
  rank_incremented l n c h = rw c (omega arith)

  Renewed-Effect :
      (n : ℕ) (l : Lease) (s s' : LeaseRenewerState) (st st' : d.Store)
      (o : Outcome RenewLeaseResult AwsError)
      → suc n < ull_mod
      → HasCounter d laws table key st n
      → rank (copy_of key s) ≤ suc n
      → Renewed l st o st'
      → copy_of key s' ≡ (if str_eq l.lease_key key then renewed_of o else copy_of key s)
      → Effect n s s' st'
  unfolding Renewed
  Renewed-Effect n l s s' st st' o fits h b (inl (same, gone)) e =
      inl (subst (λ x. HasCounter d laws table key x n) (sym same) h, ground (arith, e, gone))
  Renewed-Effect n l s s' st st' o fits h b (inr (inl (x, w, gone))) e =
      elim (write-counter d laws table key n l default_update st st' (failure x) fits h w) [
        | inl (h', other) ↦ inl (h', ground (arith, e, gone))
        | inr (k, c, h') ↦ inr (h', ground (arith, e, gone, b))
      ]
  Renewed-Effect n l s s' st st' o fits h b (inr (inr (w, kept))) e =
      elim (write-counter d laws table key n l default_update st st' (success tt) fits h w) [
        | inl (h', other) ↦ inl (h', ground (arith, e, other refl, str_eq_iff l.lease_key key))
        | inr (k, c, h') ↦
            inr (h', ground (arith, e, k, kept, rank_incremented l n c, str_eq_iff l.lease_key key))
      ]

  abbrev IsOf : Lease → Outcome RenewLeaseResult AwsError → Type 0
  IsOf l (failure e) = Unit
  IsOf l (success r) = r.lease.lease_key ≡ l.lease_key

  with_result-IsOf :
      (l : Lease) (b : RenewLeaseResult) (sent : Outcome (Unit {0}) AwsError × d.Store)
      → b.lease.lease_key ≡ l.lease_key
      → IsOf l (with_result b sent).0
  with_result-IsOf l b (success u, st) h = h
  with_result-IsOf l b (failure e, st) h = tt

  renew_lease-IsOf :
      (force : Bool) (now : ℕ) (l : Lease) (s : LeaseRenewerState) (st : d.Store)
      → IsOf l (renew_lease d table force now l s st).0
  unfolding renew_lease Manager.renew_lease copy_shared_with_incremented_counter
  renew_lease-IsOf force now l s st =
      elim (Bool-cases (force || not (is_expired l s.lease_duration now))) [
        | inl e ↦ rw (e, renew_lease) (with_result-IsOf l _ _ refl)
        | inr e ↦ rw (e, renew_lease) refl
      ]

  -- the copy after a round of `initialize`
  pub round-copy :
      (l : Lease) (s : LeaseRenewerState) (st : d.Store)
      → (let (o, (s', st')) = renew_lease d table true 0 l s st in
          copy_of key (on_init_renewal o s')
          ≡ (if str_eq l.lease_key key then renewed_of o else copy_of key s))
  round-copy l s st =
      let r = renew_lease d table true 0 l s st in
      let copies = renew_lease-find_option d table true 0 l s st in
      let own = λ (q : RenewLeaseResult) (e : r.0 ≡ success q).
        subst (IsOf l) e (renew_lease-IsOf true 0 l s st) in
      on_init_renewal-copy key l r.0 s r.1.0 copies own ∙ copies key

  pub renews-Effect :
      (n : ℕ) (force : Bool) (now : ℕ) (l : Lease) (s : LeaseRenewerState) (st : d.Store)
      → suc n < ull_mod
      → HasCounter d laws table key st n
      → rank (copy_of key s) ≤ suc n
      → (let (o, (s', st')) = renew_lease d table force now l s st in
          Effect n s s' st' × Effect n s (on_init_renewal o s') st')
  renews-Effect n force now l s st fits h b =
      let r = renew_lease d table force now l s st in
      let written = renew_lease-Renewed force now l s st in
      let copies = renew_lease-find_option d table force now l s st in
      let own = λ (q : RenewLeaseResult) (e : r.0 ≡ success q).
        subst (IsOf l) e (renew_lease-IsOf force now l s st) in
      (
        Renewed-Effect n l s r.1.0 st r.1.1 r.0 fits h b written (copies key),
        Renewed-Effect n l s (on_init_renewal r.0 r.1.0) st r.1.1 r.0 fits h b written
            (on_init_renewal-copy key l r.0 s r.1.0 copies own ∙ copies key),
      )

  -- A write moves the counter on by at most one.
  pub write-Moves :
      (n : ℕ) (l : Lease) (p : UpdateLeaseParams) (st : d.Store)
      (sent : Outcome (Unit {0}) AwsError × d.Store)
      → internal_update_lease d table l p st ≡ sent
      → suc n < ull_mod
      → HasCounter d laws table key st n
      → HasCounter d laws table key sent.1 n ⊎ HasCounter d laws table key sent.1 (suc n)
  write-Moves n l p st (o, st') w fits h =
      elim (write-counter d laws table key n l p st st' o fits h w) [
        | inl (h', other) ↦ inl h'
        | inr (k, c, h') ↦ inr h'
      ]

  sent-Effect :
      (n : ℕ) (l : Lease) (p : UpdateLeaseParams) (s : LeaseRenewerState) (st : d.Store)
      (sent : Outcome (Unit {0}) AwsError × d.Store)
      → internal_update_lease d table l p st ≡ sent
      → suc n < ull_mod
      → HasCounter d laws table key st n
      → rank (copy_of key s) ≤ suc n
      → (let (o, st') =
            with_result {B = TakeLeaseResult} (record { taken = true; lease = l }) sent in
          Effect n s (add_leases_to_renew (taken_of o) s) st')
  unfolding internal_update_lease
  sent-Effect n l p s st (failure e, st') w fits h b =
      elim (write-counter d laws table key n l p st st' (failure e) fits h w) [
        | inl (h', other) ↦ inl (h', ground (arith, add_none-copy key s))
        | inr (k, c, h') ↦ inr (h', ground (arith, add_none-copy key s, b))
      ]
  sent-Effect n l p s st (success u, st') w fits h b =
      elim (write-counter d laws table key n l p st st' (success u) fits h w) [
        | inl (h', other) ↦ inl (h', ground (arith, add_one-copy key l s, other refl))
        | inr (k, c, h') ↦ inr (h', ground (arith, add_one-copy key l s, c))
      ]

  pub takes-Effect :
      (n : ℕ) (l : Lease) (name : String) (s : LeaseRenewerState) (st : d.Store)
      → suc n < ull_mod
      → HasCounter d laws table key st n
      → rank (copy_of key s) ≤ suc n
      → (let (o, st') = take_lease d table l name st in
          Effect n s (add_leases_to_renew (taken_of o) s) st')
  unfolding take_lease
  takes-Effect n l name s st fits h b = sent-Effect n l _ s st _ refl fits h b
