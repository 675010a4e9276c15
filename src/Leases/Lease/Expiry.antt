-- ===== src/Leases/Lease/Expiry.antt =====
-- When a lease is expired: `Lease::isExpired` without the wrap of the unsigned difference.
use kclpp.Prelude.{ℕ, ◌+◌, ◌-◌, ◌≤◌, ◌<◌, ◌≡◌, ◌↔◌, ◌⊎◌, inl, inr, ◌%◌, true, some, arith}
use kclpp.Util.{ull_mod}
use kclpp.Leases.Lease.{Lease, is_expired, get_max_lease_age}

-- A lease whose counter was last seen to move at `last` is expired at a later or equal time `now`
-- exactly if more than the lease duration, or more than the maximal age, has passed.
pub is_expired_iff :
    (l : Lease) (lease_duration now last : ℕ)
    → l.last_counter_increment_nanoseconds ≡ some last
    → last ≤ now
    → now < ull_mod
    → (is_expired l lease_duration now ≡ true)
      ↔ ((lease_duration < now - last) ⊎ (get_max_lease_age < now - last))
unfolding is_expired
is_expired_iff l lease_duration now last e h w =
    let age : (now + ull_mod - last) % ull_mod ≡ now - last = omega arith in
    rw (e, is_expired) (rw age (ground arith, ground arith))

-- A clock that runs behind the last increment makes the unsigned difference wrap: the lease is
-- expired whatever its duration, as long as the clock lags by less than 2 ^ 64 nanoseconds less
-- the maximal age.
pub is_expired_behind :
    (l : Lease) (lease_duration now last : ℕ)
    → l.last_counter_increment_nanoseconds ≡ some last
    → now < last
    → last + get_max_lease_age < now + ull_mod
    → is_expired l lease_duration now ≡ true
unfolding is_expired
is_expired_behind l lease_duration now last e h w =
    let age : (now + ull_mod - last) % ull_mod ≡ now + ull_mod - last = omega arith in
    rw (e, is_expired) (rw age (ground arith))

-- A lease that is expired stays expired while the clock runs on.
pub is_expired_mono :
    (l : Lease) (lease_duration now later last : ℕ)
    → l.last_counter_increment_nanoseconds ≡ some last
    → last ≤ now
    → now ≤ later
    → later < ull_mod
    → is_expired l lease_duration now ≡ true
    → is_expired l lease_duration later ≡ true
is_expired_mono l lease_duration now later last e h k w x =
    elim ((is_expired_iff l lease_duration now last e h (omega arith)).0 x) [
      | inl d ↦ (is_expired_iff l lease_duration later last e (omega arith) w).1 (inl (omega arith))
      | inr d ↦ (is_expired_iff l lease_duration later last e (omega arith) w).1 (inr (omega arith))
    ]
