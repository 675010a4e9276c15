-- ===== src/Leases/Renewer/Listed.antt =====
-- What `initialize` of src/kclpp/leases/LeaseRenewer.cpp does with a lease that is listed, whoever owns it.
use kclpp.Prelude.{
  ℕ, suc, ◌+◌, ◌%◌, ◌<◌, ◌≡◌, ◌≢◌, inl, inr, refl, ap, sym, ◌∙◌, subst, String, Bool, true, false,
  none, some, List, [], ◌∷◌, ◌++◌, All, length, arith, str_eq_iff,
}
use kclpp.Prelude.Dict.{find_option, values}
use kclpp.Outcome.{Outcome, success, failure}
use kclpp.Util.{ull_mod}
use kclpp.AsyncGroup.{AsyncGroup, post_and_elect, create}
use kclpp.Leases.Lease.{Lease, copy_shared_with_incremented_counter}
use kclpp.Leases.Dynamo.{Dynamo, IsDynamo, AwsError, ExpectedMap, UpdateMap, meets, item_or_key}
use kclpp.Leases.Helpers.{
  UpdateLeaseParams, default_update, make_cas_expectation, make_update_values,
}
use kclpp.Leases.Manager
use kclpp.Leases.Manager.{internal_update_lease, list_leases, with_result, RenewLeaseResult}
use kclpp.Leases.Renewer.{
  LeaseRenewerState, renew_lease, on_init_renewal, initialize, on_list, init_each, on_last,
}
use kclpp.Leases.Renewer.Held.{renewed_of, add_leases_to_renew-find_option}
use kclpp.Leases.Renewer.Takeover.{initialize-takes_over, listed, init_replies-after}
use kclpp.Leases.Cluster.Writes.{HasCounter}
use kclpp.Leases.Cluster.Copies.{copy_of}
use kclpp.Leases.Cluster.Effects.{round-copy}

-- A service without faults answers a write to a table that is there, and whose condition holds, by a
-- success.
abbrev pub IsAnswering : Dynamo → String → Type 0
IsAnswering d table =
    (k : String) (es : ExpectedMap) (us : UpdateMap) (st : d.Store)
    → meets es (item_or_key k (d.item st table k)) ≡ true
    → (st' : d.Store) × (d.update_item table k es us st ≡ (success tt, st'))

module _ (d : Dynamo) (laws : IsDynamo d) (table key : String) where
  -- A write to another lease leaves the item of the key.
  write-item :
      (m : Lease) (p : UpdateLeaseParams) (st : d.Store)
      (sent : Outcome (Unit {0}) AwsError × d.Store)
      → m.lease_key ≢ key
      → internal_update_lease d table m p st ≡ sent
      → d.item sent.1 table key ≡ d.item st table key
  unfolding internal_update_lease
  write-item m p st (success u, st') apart w =
      laws.update_others table m.lease_key key _ _ st st' w (λ q. apart (sym q))
  write-item m p st (failure e, st') apart w =
      elim (laws.update_failure table m.lease_key _ _ st st' e w) [
        | inl same ↦ ap (λ x. d.item x table key) same
        | inr (held, now, kept) ↦ kept key (λ q. apart (sym q))
      ]

  with_result-store :
      {A B : Type 0} (b : B) (r : Outcome A AwsError × d.Store) → (with_result b r).1 ≡ r.1
  with_result-store b (success a, st) = refl
  with_result-store b (failure e, st) = refl

  renew_lease-item :
      (m : Lease) (s : LeaseRenewerState) (st : d.Store)
      → m.lease_key ≢ key
      → d.item (renew_lease d table true 0 m s st).1.1 table key ≡ d.item st table key
  unfolding renew_lease Manager.renew_lease
  renew_lease-item m s st apart =
      let sent = internal_update_lease d table m default_update st in
      ap (λ x. d.item x table key) (with_result-store _ sent)
      ∙ write-item m default_update st sent apart refl

  on_last-copy :
      (leads : Bool) (s : LeaseRenewerState) (copy : Lease)
      → copy_of key s ≡ some copy
      → copy_of key (on_last leads s).1 ≡ some copy
  unfolding on_last
  on_last-copy false s copy h = h
  on_last-copy true s copy h =
      ground (arith, h, add_leases_to_renew-find_option (values s.owned_leases) s key)

  -- Rounds for other leases leave the copy.
  init_each-keeps :
      (ls : List Lease) (g : AsyncGroup) (s : LeaseRenewerState) (st : d.Store) (copy : Lease)
      → All (λ m. m.lease_key ≢ key) ls
      → copy_of key s ≡ some copy
      → copy_of key (init_each d table ls g s st).1.0 ≡ some copy
  unfolding init_each
  init_each-keeps [] g s st copy apart h = h
  init_each-keeps (m ∷ ls) g s st copy apart h =
      let r = renew_lease d table true 0 m s st in
      let (leads, g') = post_and_elect g in
      let same : copy_of key (on_init_renewal r.0 r.1.0) ≡ some copy =
        ground
          (arith, h, apart.0, str_eq_iff m.lease_key key, round-copy d laws table key m s st) in
      init_each-keeps ls g' (on_last leads (on_init_renewal r.0 r.1.0)).1 r.1.1 copy apart.1
        (on_last-copy leads (on_init_renewal r.0 r.1.0) copy same)

  module _ (answering : IsAnswering d table) (l : Lease) (own : l.lease_key ≡ key) where
    renew_lease-renewed :
        (s : LeaseRenewerState) (st : d.Store)
        → meets (make_cas_expectation l) (item_or_key key (d.item st table key)) ≡ true
        → renewed_of (renew_lease d table true 0 l s st).0
          ≡ some (copy_shared_with_incremented_counter l)
    unfolding renew_lease Manager.renew_lease internal_update_lease
    renew_lease-renewed s st h =
        let held =
          subst (λ k. meets (make_cas_expectation l) (item_or_key k (d.item st table k)) ≡ true)
            (sym own) h in
        let (st', e) =
          answering l.lease_key (make_cas_expectation l) (make_update_values l default_update) st
            held in
        rw e refl

    init_each-takes :
        (before after : List Lease) (g : AsyncGroup) (s : LeaseRenewerState) (st : d.Store)
        → All (λ m. m.lease_key ≢ key) before
        → All (λ m. m.lease_key ≢ key) after
        → meets (make_cas_expectation l) (item_or_key key (d.item st table key)) ≡ true
        → copy_of key (init_each d table (before ++ (l ∷ after)) g s st).1.0
          ≡ some (copy_shared_with_incremented_counter l)
    unfolding init_each
    init_each-takes [] after g s st b a h =
        let r = renew_lease d table true 0 l s st in
        let copy = copy_shared_with_incremented_counter l in
        let (leads, g') = post_and_elect g in
        let new : copy_of key (on_init_renewal r.0 r.1.0) ≡ some copy =
          round-copy d laws table key l s st
          ∙ rw ((str_eq_iff l.lease_key key).1 own) (renew_lease-renewed s st h) in
        init_each-keeps after g' (on_last leads (on_init_renewal r.0 r.1.0)).1 r.1.1 copy a
          (on_last-copy leads (on_init_renewal r.0 r.1.0) copy new)
    init_each-takes (m ∷ before) after g s st b a h =
        let r = renew_lease d table true 0 m s st in
        let (leads, g') = post_and_elect g in
        let there =
          subst (λ i. meets (make_cas_expectation l) (item_or_key key i) ≡ true)
            (sym (renew_lease-item m s st b.0)) h in
        init_each-takes before after g' (on_last leads (on_init_renewal r.0 r.1.0)).1 r.1.1 b.1 a
          there

    on_list-takes :
        (before after : List Lease) (s : LeaseRenewerState) (st : d.Store)
        → All (λ m. m.lease_key ≢ key) before
        → All (λ m. m.lease_key ≢ key) after
        → meets (make_cas_expectation l) (item_or_key key (d.item st table key)) ≡ true
        → copy_of key (on_list d table (success (before ++ (l ∷ after))) s st).1.0
          ≡ some (copy_shared_with_incremented_counter l)
    unfolding on_list
    on_list-takes [] after s st b a h =
        let (replies, x) = init_each d table (l ∷ after) (create (length (l ∷ after))) s st in
        ap (λ p. copy_of key p.0) (init_replies-after d laws table key 0 replies x)
        ∙ init_each-takes [] after (create (length (l ∷ after))) s st b a h
    on_list-takes (m ∷ before) after s st b a h =
        let ls = m ∷ (before ++ (l ∷ after)) in
        let (replies, x) = init_each d table ls (create (length ls)) s st in
        ap (λ p. copy_of key p.0) (init_replies-after d laws table key 0 replies x)
        ∙ init_each-takes (m ∷ before) after (create (length ls)) s st b a h

  -- The start of a worker takes over every lease that is listed, whoever owns it: where the listing has the
  -- lease once under its key, as it stands in the table, a worker that held nothing holds the next copy of
  -- it after `initialize`, and another worker that holds the lease as it was listed drops it at its next
  -- renewal, forced or not, which leaves the table as it is. The counter of the lease and the number of
  -- the leases that are listed stay below 2 ^ 64. The service behaves as documented, and answers every
  -- write whose condition holds by a success.
  pub initialize-takes_listed :
      (answering : IsAnswering d table) (n : ℕ) (l : Lease) (before after : List Lease)
      (errno : Bool) (s t : LeaseRenewerState) (st : d.Store) (force : Bool) (time : ℕ)
      → l.lease_key ≡ key
      → l.lease_counter ≡ some n
      → HasCounter d laws table key st n
      → meets (make_cas_expectation l) (item_or_key key (d.item st table key)) ≡ true
      → All (λ m. m.lease_key ≢ key) before
      → All (λ m. m.lease_key ≢ key) after
      → (list_leases d table errno st).0 ≡ success (before ++ (l ∷ after))
      → suc (n + length (before ++ (l ∷ after))) < ull_mod
      → s.owned_leases ≡ []
      → (let (replies, (s', st')) = initialize d table errno s st in
          let (o, (t', st'')) = renew_lease d table force time l t st' in
          (find_option s'.owned_leases key ≡ some (copy_shared_with_incremented_counter l))
          × (find_option t'.owned_leases l.lease_key ≡ none)
          × (st'' ≡ st'))
  unfolding initialize copy_shared_with_incremented_counter
  initialize-takes_listed answering n l before after errno s t st force time own current counted
        fresh b a listing fits empty =
      let i = initialize d table errno s st in
      let copy = copy_shared_with_incremented_counter l in
      let held : find_option i.1.0.owned_leases key ≡ some copy =
        ap (λ o. copy_of key (on_list d table o s st).1.0) listing
        ∙ on_list-takes answering l own before after s st b a fresh in
      let fits' = subst (λ o. suc (n + listed d laws table key n o) < ull_mod) (sym listing) fits in
      let counter : copy.lease_counter ≡ some ((1 + n) % ull_mod) = rw current refl in
      let (dropped, kept) =
        initialize-takes_over d laws table key n errno s i.1.0 t st i.1.1 i.0 copy l
          ((1 + n) % ull_mod) force time counted fits' empty refl held counter own current in
      (held, dropped, kept)
