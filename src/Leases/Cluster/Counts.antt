-- ===== src/Leases/Cluster/Counts.antt =====
-- How many workers have the copy of a lease that the table would renew.
use kclpp.Prelude.{
  ℕ, suc, ◌≤◌, ◌≡◌, refl, String, List, [], ◌∷◌, arith, if◌then◌else◌, ◌==◌, All, All-map, sum_of,
}
use kclpp.Prelude.Dict.{find_option}
use kclpp.Leases.Renewer.{LeaseRenewerState}
use kclpp.Leases.Cluster.Copies.{rank, copy_of}

module _ (key : String) where
  -- one for a worker whose copy has the counter `n`
  abbrev pub has_current : ℕ → LeaseRenewerState → ℕ
  has_current n s = if rank (copy_of key s) == suc n then 1 else 0

  -- With the counter `n` in the table, no copy is ahead of it and at most one is at it.
  pub record IsExclusive (n : ℕ) (ws : List LeaseRenewerState) : Type 0 where
    pub behind : All (λ s. rank (copy_of key s) ≤ suc n) ws
    pub at_most_one : sum_of (has_current n) ws ≤ 1

  pub none_current :
      (n : ℕ) (ws : List LeaseRenewerState)
      → All (λ s. rank (copy_of key s) ≤ suc n) ws
      → sum_of (has_current (suc n)) ws ≡ 0
  none_current n [] h = refl
  none_current n (s ∷ ws) h = ground (arith, h.0, none_current n ws h.1)

  pub behind-suc :
      (n : ℕ) (ws : List LeaseRenewerState)
      → All (λ s. rank (copy_of key s) ≤ suc n) ws
      → All (λ s. rank (copy_of key s) ≤ suc (suc n)) ws
  behind-suc n ws h = All-map (λ s p. omega (arith, p)) ws h

  pub moved-IsExclusive :
      (n : ℕ) (ws : List LeaseRenewerState) → IsExclusive n ws → IsExclusive (suc n) ws
  moved-IsExclusive n ws h = record {
    behind = behind-suc n ws h.behind;
    at_most_one = omega (arith, none_current n ws h.behind);
  }

  -- Workers that hold nothing.
  abbrev pub HoldNothing : List LeaseRenewerState → Type 0
  HoldNothing ws = All (λ s. s.owned_leases ≡ []) ws

  nothing-rank : (s : LeaseRenewerState) → s.owned_leases ≡ [] → rank (copy_of key s) ≡ 0
  unfolding find_option
  nothing-rank s e = rw e refl

  nothing-current :
      (n : ℕ) (ws : List LeaseRenewerState) → HoldNothing ws → sum_of (has_current n) ws ≡ 0
  nothing-current n [] h = refl
  nothing-current n (s ∷ ws) h = ground (arith, nothing-rank s h.0, nothing-current n ws h.1)

  pub nothing-IsExclusive :
      (n : ℕ) (ws : List LeaseRenewerState) → HoldNothing ws → IsExclusive n ws
  nothing-IsExclusive n ws h = record {
    behind = All-map (λ s e. omega (arith, nothing-rank s e)) ws h;
    at_most_one = omega (arith, nothing-current n ws h);
  }
