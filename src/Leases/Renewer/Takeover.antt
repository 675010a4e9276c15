-- ===== src/Leases/Renewer/Takeover.antt =====
-- What `initialize` of src/kclpp/leases/LeaseRenewer.cpp does to the workers that hold leases: it renews
-- every lease of the table, whoever owns it.
use kclpp.Prelude.{
  ℕ, suc, ◌+◌, ◌<◌, ◌≤◌, ◌≡◌, ◌≢◌, ◌⊎◌, inl, inr, refl, ap, sym, subst, String, Bool, true, false,
  none, some, List, [], ◌∷◌, length, arith, str_eq_iff, str_eq_refl, Option-cases,
}
use kclpp.Prelude.Dict.{Dict, find_option, values}
use kclpp.Prelude.Dict.Unique.{HasUniqueKeys}
use kclpp.Outcome.{Outcome, success, failure}
use kclpp.Util.{ull_mod}
use kclpp.AsyncGroup.{AsyncGroup, post_and_elect, create}
use kclpp.Leases.Lease.{Lease}
use kclpp.Leases.Dynamo.{Dynamo, IsDynamo, AwsError}
use kclpp.Leases.Helpers.{default_update}
use kclpp.Leases.Manager
use kclpp.Leases.Manager.{list_leases, with_result}
use kclpp.Leases.Renewer.{
  LeaseRenewerState, renew_lease, on_init_renewal, add_leases_to_renew, initialize, on_list,
  init_each, init_replies, on_last,
}
use kclpp.Leases.Renewer.Held.{refused-drops, first_renewable, add_leases_to_renew-find_option}
use kclpp.Leases.Renewer.Invariant.{
  IsHeldMap, renew_lease-IsHeldMap, on_init_renewal-IsHeldMap, nil-IsHeldMap,
  add_leases_to_renew-IsHeldMap,
}
use kclpp.Leases.Cluster.Writes.{HasCounter, write-stale}
use kclpp.Leases.Cluster.Copies.{rank, copy_of}
use kclpp.Leases.Cluster.Effects.{Effect, renews-Effect}

-- A map whose leases stand under their keys holds no lease of a key that it does not have.
first_renewable-values :
    (m : Dict Lease) (key : String)
    → HasUniqueKeys m
    → ((k : String) (l : Lease) → find_option m k ≡ some l → l.lease_key ≡ k)
    → find_option m key ≡ none
    → first_renewable key (values m) ≡ none
unfolding find_option
first_renewable-values [] key u h e = refl
first_renewable-values ((k, l) ∷ m) key u h e =
    let own : l.lease_key ≡ k = h k l (rw str_eq_refl refl) in
    let later : (q : String) (x : Lease) → find_option m q ≡ some x → x.lease_key ≡ q =
      λ q x p. h q x (ground (arith, p, u.0, str_eq_iff k q)) in
    ground (arith, own, e, str_eq_iff k key, first_renewable-values m key u.1 later)

-- Adding the leases that are held changes no copy.
add_held-copy :
    (s : LeaseRenewerState) (key : String)
    → IsHeldMap s.owned_leases
    → copy_of key (add_leases_to_renew (values s.owned_leases) s) ≡ copy_of key s
add_held-copy s key h = elim (Option-cases (find_option s.owned_leases key)) [
  | inl e ↦ ground (
    arith,
    e,
    add_leases_to_renew-find_option (values s.owned_leases) s key,
    first_renewable-values s.owned_leases key h.unique h.keyed e,
  )
  | inr (l, e) ↦ ground (arith, e, add_leases_to_renew-find_option (values s.owned_leases) s key)
]

module _ (d : Dynamo) (laws : IsDynamo d) (table key : String) (n : ℕ) where
  -- After at most `k` rounds: the counter has moved on where the worker has a copy with a counter.
  record HasMoved (k : ℕ) (s : LeaseRenewerState) (st : d.Store) : Type 0 where
    pub now : ℕ
    pub counted : HasCounter d laws table key st now
    pub within : now ≤ n + k
    pub not_before : n ≤ now
    pub copied : rank (copy_of key s) ≤ suc now
    pub moved : (rank (copy_of key s) ≡ 0) ⊎ (n < now)
    pub held : IsHeldMap s.owned_leases

  on_last-HasMoved :
      (k : ℕ) (leads : Bool) (s : LeaseRenewerState) (st : d.Store)
      → HasMoved k s st
      → HasMoved k (on_last leads s).1 st
  unfolding on_last
  on_last-HasMoved k false s st h = h
  on_last-HasMoved k true s st h =
      let same = add_held-copy s key h.held in
      record {
        now = h.now;
        counted = h.counted;
        within = h.within;
        not_before = h.not_before;
        copied = rw same h.copied;
        moved = rw same h.moved;
        held = add_leases_to_renew-IsHeldMap (values s.owned_leases) s h.held;
      }

  Effect-HasMoved :
      (k : ℕ) (s s' : LeaseRenewerState) (st st' : d.Store) (h : HasMoved k s st)
      → IsHeldMap s'.owned_leases
      → Effect d laws table key h.now s s' st'
      → HasMoved (suc k) s' st'
  Effect-HasMoved k s s' st st' h held (inl (c, r)) = record {
    now = h.now;
    counted = c;
    within = omega (arith, h.within);
    not_before = h.not_before;
    copied = omega (arith, r, h.copied);
    moved = ground (arith, r, h.moved);
    held = held;
  }
  Effect-HasMoved k s s' st st' h held (inr (c, r)) = record {
    now = suc h.now;
    counted = c;
    within = omega (arith, h.within);
    not_before = omega (arith, h.not_before);
    copied = r;
    moved = inr (omega (arith, h.not_before));
    held = held;
  }

  init_each-HasMoved :
      (k : ℕ) (ls : List Lease) (g : AsyncGroup) (s : LeaseRenewerState) (st : d.Store)
      → suc (n + k + length ls) < ull_mod
      → HasMoved k s st
      → (let (replies, (s', st')) = init_each d table ls g s st in HasMoved (k + length ls) s' st')
  unfolding init_each
  init_each-HasMoved k [] g s st fits h = subst (λ i. HasMoved i s st) (omega arith) h
  init_each-HasMoved k (l ∷ ls) g s st fits h =
      let r = renew_lease d table true 0 l s st in
      let step =
        renews-Effect d laws table key h.now true 0 l s st (omega (arith, h.within)) h.counted
          h.copied in
      let held =
        on_init_renewal-IsHeldMap r.0 r.1.0 (renew_lease-IsHeldMap d table true 0 l s st h.held) in
      let s' = on_init_renewal r.0 r.1.0 in
      let next = Effect-HasMoved k s s' st r.1.1 h held step.1 in
      let (leads, g') = post_and_elect g in
      let last = on_last-HasMoved (suc k) leads s' r.1.1 next in
      let all =
        init_each-HasMoved (suc k) ls g' (on_last leads s').1 r.1.1 (omega (arith, fits)) last in
      let (replies, (after, st')) = init_each d table ls g' (on_last leads s').1 r.1.1 in
      let count : suc k + length ls ≡ k + suc (length ls) = omega arith in
      subst (λ i. HasMoved i after st') count all

  pub init_replies-after :
      (bs : List Bool) (after : LeaseRenewerState × d.Store)
      → (init_replies d table (bs, after)).1 ≡ after
  unfolding init_replies
  init_replies-after [] after = refl
  init_replies-after (b ∷ bs) after = init_replies-after bs after

  -- as many leases as were listed
  abbrev pub listed : Outcome (List Lease) AwsError → ℕ
  listed (failure e) = 0
  listed (success ls) = length ls

  on_list-HasMoved :
      (o : Outcome (List Lease) AwsError) (s : LeaseRenewerState) (st : d.Store)
      → suc (n + listed o) < ull_mod
      → HasMoved 0 s st
      → (let (replies, (s', st')) = on_list d table o s st in HasMoved (listed o) s' st')
  unfolding on_list
  on_list-HasMoved (failure e) s st fits h = h
  on_list-HasMoved (success []) s st fits h = h
  on_list-HasMoved (success (l ∷ ls)) s st fits h =
      let (replies, after) = init_each d table (l ∷ ls) (create (length (l ∷ ls))) s st in
      let all =
        init_each-HasMoved 0 (l ∷ ls) (create (length (l ∷ ls))) s st (omega (arith, fits)) h in
      let same = sym (init_replies-after replies after) in
      subst (λ r. HasMoved (length (l ∷ ls)) r.0 r.1) same
        (subst (λ i. HasMoved i after.0 after.1) (omega arith) all)

  -- The start of a worker takes over the leases of all others: where `initialize` leaves a worker that held
  -- nothing with a copy of a lease that has a counter, every other worker whose copy had the counter of the
  -- table before drops the lease at its next renewal, forced or not, which leaves the table as it is,
  -- whoever owns the lease there. The counter and the number of the leases that are listed stay below
  -- 2 ^ 64. The service behaves as documented.
  pub initialize-takes_over :
      (errno : Bool) (s s' t : LeaseRenewerState) (st st' : d.Store)
      (replies : List (Outcome Bool AwsError)) (copy l : Lease) (c : ℕ) (force : Bool) (time : ℕ)
      → HasCounter d laws table key st n
      → suc (n + listed (list_leases d table errno st).0) < ull_mod
      → s.owned_leases ≡ []
      → initialize d table errno s st ≡ (replies, (s', st'))
      → find_option s'.owned_leases key ≡ some copy
      → copy.lease_counter ≡ some c
      → l.lease_key ≡ key
      → l.lease_counter ≡ some n
      → (let (o, (t', st'')) = renew_lease d table force time l t st' in
          (find_option t'.owned_leases l.lease_key ≡ none) × (st'' ≡ st'))
  unfolding initialize Manager.renew_lease find_option
  initialize-takes_over errno s s' t st st' replies copy l c force time start fits empty ran got
        counter k current =
      let begun : HasMoved 0 s st = record {
        now = n;
        counted = start;
        within = omega arith;
        not_before = omega arith;
        copied = rw empty (omega arith);
        moved = inl (rw empty refl);
        held = subst IsHeldMap (sym empty) nil-IsHeldMap;
      } in
      let ended =
        subst (λ r. HasMoved (listed (list_leases d table errno st).0) r.1.0 r.1.1) ran
          (on_list-HasMoved (list_leases d table errno st).0 s st fits begun) in
      let late : l.lease_counter ≢ some ended.now =
        λ e. ground (arith, e, current, got, counter, ended.moved) in
      let (x, refused) =
        write-stale d laws table key ended.now l default_update st' ended.counted k late in
      refused-drops d table l t st' force time x (ap (with_result _) refused)
