-- ===== src/Leases/Renewer/Replies.antt =====
-- How often the callbacks of the renewer run.
use kclpp.Prelude.{
  ℕ, suc, ◌+◌, ◌<◌, ◌≡◌, refl, String, Bool, true, false, List, [], ◌∷◌, length, is_empty,
  if◌then◌else◌, arith,
}
use kclpp.Prelude.Dict.{values}
use kclpp.Outcome.{Outcome, success, failure}
use kclpp.Util.{ull_mod}
use kclpp.AsyncGroup.{AsyncGroup, create, post_and_elect_early, post_and_elect_last}
use kclpp.Leases.Lease.{Lease}
use kclpp.Leases.Dynamo.{Dynamo, AwsError}
use kclpp.Leases.Manager.{list_leases}
use kclpp.Leases.Renewer.{
  LeaseRenewerState, renew_leases, renew_each, initialize, init_each, init_replies, on_list,
  on_last,
}

module _ (d : Dynamo) (table : String) where
  renew_each-once :
      (clock : ℕ → ℕ) (i : ℕ) (l : Lease) (ls : List Lease) (g : AsyncGroup) (s : LeaseRenewerState)
      (st : d.Store)
      → g.counter + suc (length ls) ≡ g.target
      → g.target < ull_mod
      → g.leader_chosen ≡ false
      → (renew_each d table clock i (l ∷ ls) g s st).0 ≡ true ∷ []
  unfolding renew_each
  renew_each-once clock i l [] g s st h w c = rw (post_and_elect_last g h w c, renew_each) refl
  renew_each-once clock i l (m ∷ ms) g s st h w c =
      rw (post_and_elect_early g (omega arith) w, renew_each)
        (renew_each-once clock (suc i) m ms _ _ _ (omega arith) w c)

  renew_each-create :
      (clock : ℕ → ℕ) (ls : List Lease) (s : LeaseRenewerState) (st : d.Store)
      → length ls < ull_mod
      → (renew_each d table clock 0 ls (create (length ls)) s st).0
        ≡ (if is_empty ls then [] else true ∷ [])
  unfolding renew_each
  renew_each-create clock [] s st h = refl
  renew_each-create clock (l ∷ ls) s st h =
      renew_each-once clock 0 l ls (create (length (l ∷ ls))) s st (omega arith) h refl

  -- `renewLeases` calls its callback exactly once where the worker holds some leases, whatever
  -- becomes of their renewals, and never where it holds none. The leases are fewer than 2 ^ 64.
  pub renew_leases-once :
      (clock : ℕ → ℕ) (s : LeaseRenewerState) (st : d.Store)
      → length (values s.owned_leases) < ull_mod
      → (renew_leases d table clock s st).0
        ≡ (if is_empty (values s.owned_leases) then [] else true ∷ [])
  unfolding renew_leases
  renew_leases-once clock s st h = renew_each-create clock (values s.owned_leases) s st h

  init_each-once :
      (l : Lease) (ls : List Lease) (g : AsyncGroup) (s : LeaseRenewerState) (st : d.Store)
      → g.counter + suc (length ls) ≡ g.target
      → g.target < ull_mod
      → g.leader_chosen ≡ false
      → (init_each d table (l ∷ ls) g s st).0 ≡ true ∷ []
  unfolding init_each on_last
  init_each-once l [] g s st h w c = rw (post_and_elect_last g h w c, init_each) refl
  init_each-once l (m ∷ ms) g s st h w c =
      rw (post_and_elect_early g (omega arith) w, init_each)
        (init_each-once m ms _ _ _ (omega arith) w c)

  init_replies-one :
      (bs : List Bool) (after : LeaseRenewerState × d.Store)
      → bs ≡ true ∷ []
      → (init_replies d table (bs, after)).0 ≡ success true ∷ []
  unfolding init_replies
  init_replies-one bs after h = rw h refl

  -- What the callback of `initialize` is told.
  abbrev pub initialize_reply : Outcome (List Lease) AwsError → Outcome Bool AwsError
  initialize_reply (failure e) = failure e
  initialize_reply (success leases) = success true

  abbrev Fits : Outcome (List Lease) AwsError → Type 0
  Fits (failure e) = Unit
  Fits (success leases) = length leases < ull_mod

  on_list-once :
      (o : Outcome (List Lease) AwsError) (s : LeaseRenewerState) (st : d.Store)
      → Fits o
      → (on_list d table o s st).0 ≡ initialize_reply o ∷ []
  unfolding on_list
  on_list-once (failure e) s st h = refl
  on_list-once (success []) s st h = refl
  on_list-once (success (l ∷ ls)) s st h =
      init_replies-one _ _
        (init_each-once l ls (create (length (l ∷ ls))) s st (omega arith) h refl)

  -- `initialize` calls its callback exactly once: with the error of the scan, or else with success,
  -- whatever becomes of the renewals that it starts. The listed leases are fewer than 2 ^ 64.
  pub initialize-once :
      (errno : Bool) (s : LeaseRenewerState) (st : d.Store)
      → Fits (list_leases d table errno st).0
      → (initialize d table errno s st).0 ≡ initialize_reply (list_leases d table errno st).0 ∷ []
  unfolding initialize
  initialize-once errno s st h = on_list-once _ s st h
