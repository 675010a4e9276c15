-- ===== src/Leases/Cluster/Copies.antt =====
-- The copy of one lease that a worker holds after each of its steps.
use kclpp.Prelude.{
  ℕ, suc, ◌≡◌, ◌⊎◌, refl, String, Option, none, some, [], ◌∷◌, arith, str_eq, str_eq_iff,
  if◌then◌else◌,
}
use kclpp.Prelude.Dict.{find_option, find_option-insert_or_update}
use kclpp.Outcome.{Outcome, success, failure}
use kclpp.Leases.Lease.{Lease}
use kclpp.Leases.Dynamo.{AwsError}
use kclpp.Leases.Manager.{RenewLeaseResult}
use kclpp.Leases.Renewer.{
  LeaseRenewerState, on_init_renewal, safe_insert_lease, add_leases_to_renew,
}
use kclpp.Leases.Renewer.Held.{renewed_of, add_leases_to_renew-find_option}

-- The counter of a copy and one, or nothing: what it takes for the copy to be written.
abbrev pub rank : Option Lease → ℕ
rank none = 0
rank (some l) = elim l.lease_counter [ none ↦ 0 | some n ↦ suc n ]

abbrev pub copy_of : String → LeaseRenewerState → Option Lease
copy_of key s = find_option s.owned_leases key

-- A round of `initialize` leaves the copy as the renewal left it.
pub on_init_renewal-copy :
    (key : String) (l : Lease) (o : Outcome RenewLeaseResult AwsError) (s s' : LeaseRenewerState)
    → ((q : String)
        → find_option s'.owned_leases q
          ≡ (if str_eq l.lease_key q then renewed_of o else find_option s.owned_leases q))
    → ((r : RenewLeaseResult) → o ≡ success r → r.lease.lease_key ≡ l.lease_key)
    → copy_of key (on_init_renewal o s') ≡ copy_of key s'
unfolding on_init_renewal safe_insert_lease
on_init_renewal-copy key l (failure e) s s' h k = refl
on_init_renewal-copy key l (success r) s s' h k = ground (
  arith,
  find_option-insert_or_update r.lease.lease_key key r.lease s'.owned_leases,
  h key,
  k r refl,
  str_eq_iff r.lease.lease_key key,
  str_eq_iff l.lease_key key,
)

pub add_none-copy :
    (key : String) (s : LeaseRenewerState) → copy_of key (add_leases_to_renew [] s) ≡ copy_of key s
add_none-copy key s = ground (arith, add_leases_to_renew-find_option [] s key)

-- Adding a lease under another key, or a lease of a key that is there, changes no copy.
pub add_one-copy :
    (key : String) (l : Lease) (s : LeaseRenewerState)
    → (copy_of key (add_leases_to_renew (l ∷ []) s) ≡ copy_of key s)
      ⊎ ((l.lease_key ≡ key) × (copy_of key (add_leases_to_renew (l ∷ []) s) ≡ some l))
add_one-copy key l s =
    ground (arith, add_leases_to_renew-find_option (l ∷ []) s key, str_eq_iff l.lease_key key)
