-- ===== src/Leases/Cluster.antt =====
-- Several workers over one lease table: what LeaseRenewer.cpp and LeaseTaker.cpp of src/kclpp/leases do
-- with one lease is a step of one worker, and the steps of the workers come in any order. A worker may
-- take, renew or evict any lease that it has read at any time before.
pub mod Writes
pub mod Copies
pub mod Effects
pub mod Counts
pub mod Invariant
pub mod Exclusive
use kclpp.Prelude.{ℕ, suc, ◌≡◌, String, Bool, true, Option, some, List, get_elem?, set}
use kclpp.Outcome.{Outcome}
use kclpp.Leases.Lease.{Lease}
use kclpp.Leases.Dynamo.{Dynamo, AwsError}
use kclpp.Leases.Manager.{RenewLeaseResult, TakeLeaseResult, take_lease, evict_lease}
use kclpp.Leases.Renewer.{
  LeaseRenewerState, renew_lease, on_init_renewal, add_leases_to_renew, clear_held_leases,
}
use kclpp.Leases.Taker.Taking.{taken_of}

pub record System (S : Type 0) : Type 0 where
  pub store : S
  pub workers : List LeaseRenewerState

abbrev pub worker_becomes : {S : Type 0} → ℕ → LeaseRenewerState → S → System S → System S
worker_becomes i s st sys = record { store = st; workers = set sys.workers i s }

module _ (d : Dynamo) (table : String) where
  pub data Step (sys : System d.Store) : System d.Store → Type 0 where
    -- a round of `renewLeases`
    renews :
        (i : ℕ) (force : Bool) (now : ℕ) (l : Lease) (s s' : LeaseRenewerState) (st' : d.Store)
        (o : Outcome RenewLeaseResult AwsError)
        → get_elem? sys.workers i ≡ some s
        → renew_lease d table force now l s sys.store ≡ (o, (s', st'))
        → Step sys (worker_becomes i s' st' sys)
    -- a round of `initialize`
    starts :
        (i : ℕ) (now : ℕ) (l : Lease) (s s' : LeaseRenewerState) (st' : d.Store)
        (o : Outcome RenewLeaseResult AwsError)
        → get_elem? sys.workers i ≡ some s
        → renew_lease d table true now l s sys.store ≡ (o, (s', st'))
        → Step sys (worker_becomes i (on_init_renewal o s') st' sys)
    -- a request of `takeLeases`, whose lease the coordinator adds to those that are renewed
    takes :
        (i : ℕ) (name : String) (l : Lease) (s : LeaseRenewerState) (st' : d.Store)
        (o : Outcome TakeLeaseResult AwsError)
        → get_elem? sys.workers i ≡ some s
        → take_lease d table l name sys.store ≡ (o, st')
        → Step sys (worker_becomes i (add_leases_to_renew (taken_of o) s) st' sys)
    clears :
        (i : ℕ) (s : LeaseRenewerState)
        → get_elem? sys.workers i ≡ some s
        → Step sys (worker_becomes i (clear_held_leases s) sys.store sys)
    evicts :
        (l : Lease) (st' : d.Store) (o : Outcome Bool AwsError)
        → evict_lease d table l sys.store ≡ (o, st')
        → Step sys (record sys { store = st' })

  pub data Reaches (sys : System d.Store) : System d.Store → Type 0 where
    here : Reaches sys sys
    further : {a b : System d.Store} → Reaches sys a → Step a b → Reaches sys b

  abbrev pub steps : {sys sys' : System d.Store} → Reaches sys sys' → ℕ
  steps here = 0
  steps (further r st) = suc (steps r)
