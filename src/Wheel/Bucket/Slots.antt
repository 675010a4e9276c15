-- ===== src/Wheel/Bucket/Slots.antt =====
-- The slot of a delay in closed form, and its bounds.
use native.Mathlib.Nat.{
  div-add-mod, mod-lt, mod-eq_of_lt, div-lt_iff_lt-mul, mul-add-mod_self_right, le-mul_of_pos_right,
}
use kclpp.Prelude.{
  ℕ, zero, suc, ◌+◌, ◌-◌, ◌*◌, ◌/◌, ◌%◌, ◌<◌, ◌≤◌, ◌≡◌, refl, ◌∙◌, false, some, arith, ltb, ◌==◌,
  Bool-cases, inl, inr, if◌then◌else◌,
}
use kclpp.Wheel.Bucket.{Bucket, get_slot_idx, count_slots, rounded, time_capacity}

-- Where nothing is left over, the loop counts the resolutions that are left.
count_slots-exact :
    (fuel res idx current left tc : ℕ)
    → 0 < res
    → left < fuel
    → tc ≡ current + left * res
    → count_slots fuel res 0 tc idx current ≡ idx + left
unfolding count_slots
count_slots-exact zero res idx current left tc p f c = omega arith
count_slots-exact (suc fuel) res idx current zero tc p f c = ground arith
count_slots-exact (suc fuel) res idx current (suc left) tc p f c =
    let next : tc ≡ current + res + left * res = omega (arith, c) in
    let rest = count_slots-exact fuel res (suc idx) (current + res) left tc p (omega arith) next in
    ground (arith, rest, next)

-- Where something is left over, the loop stops one short of them.
count_slots-over :
    (fuel res over idx current left tc : ℕ)
    → 0 < res
    → 0 < over
    → left < fuel
    → tc ≡ current + suc left * res
    → count_slots fuel res over tc idx current ≡ idx + left
unfolding count_slots
count_slots-over zero res over idx current left tc p o f c = omega arith
count_slots-over (suc fuel) res over idx current zero tc p o f c = ground arith
count_slots-over (suc fuel) res over idx current (suc left) tc p o f c =
    let next : tc ≡ current + res + suc left * res = omega (arith, c) in
    let rest =
      count_slots-over fuel res over (suc idx) (current + res) left tc p o (omega arith) next in
    ground (arith, rest, next)

-- The slot that `k` resolutions and `r` milliseconds are counted to.
abbrev pub counted_slot : ℕ → ℕ → ℕ
counted_slot zero r = 0
counted_slot (suc k) r = if r == 0 then suc k else k

count_slots-counted :
    (res k r : ℕ)
    → r < res
    → (if ltb (k * res + r) res then 0 else count_slots (suc (k * res + r)) res r (k * res) 0 0)
      ≡ counted_slot k r
count_slots-counted res zero r h = ground arith
count_slots-counted res (suc k) r h =
    let p : 0 < res = omega arith in
    let fuel : suc k ≤ suc k * res = le-mul_of_pos_right (suc k) p in
    let beyond : ltb (suc k * res + r) res ≡ false = ground arith in
    elim (Bool-cases (r == 0)) [
      | inl e ↦
          let none_over : r ≡ 0 = ground arith in
          rw (beyond, none_over)
            (omega (
              arith,
              count_slots-exact (suc (suc k * res + 0)) res 0 0 (suc k) (suc k * res) p
                  (omega arith) (omega arith),
            ))
      | inr e ↦
          rw (beyond, e)
            (omega (
              arith,
              count_slots-over (suc (suc k * res + r)) res r 0 0 k (suc k * res) p (ground arith)
                  (omega arith) (omega arith),
            ))
    ]

-- The slot of a delay of `k` resolutions and `r` milliseconds, less than a resolution, within the
-- capacity of the bucket: slot `k` if `r` is 0, and else slot `k - 1`, or 0 where `k` is 0; the
-- bottom bucket moves slot 0 on to slot 1 where `r` is more than half of the resolution.
pub get_slot_idx-closed :
    (b : Bucket) (k r : ℕ)
    → r < b.resolution
    → k * b.resolution + r ≤ time_capacity b
    → get_slot_idx b (k * b.resolution + r)
      ≡ some (rounded b.is_bottom b.resolution r (counted_slot k r))
unfolding get_slot_idx
get_slot_idx-closed b k r h w =
    let over : (k * b.resolution + r) % b.resolution ≡ r =
      mul-add-mod_self_right k b.resolution r ∙ mod-eq_of_lt h in
    let considered : k * b.resolution + r - r ≡ k * b.resolution = omega arith in
    let fits : ltb (time_capacity b) (k * b.resolution + r) ≡ false = ground arith in
    rw (fits, get_slot_idx)
      (rw (over, considered) (rw (count_slots-counted b.resolution k r h) refl))

rounded-counted_slot :
    (b : Bucket) (k r : ℕ)
    → 2 ≤ b.num_slots
    → k < b.num_slots
    → rounded b.is_bottom b.resolution r (counted_slot k r) < b.num_slots
rounded-counted_slot b zero r two low = ground arith
rounded-counted_slot b (suc k) r two low = ground arith

-- Every delay below the capacity of a bucket with at least two slots has a slot of the bucket. The
-- resolution is not 0.
pub get_slot_idx-bounded :
    (b : Bucket) (delay : ℕ)
    → 0 < b.resolution
    → 2 ≤ b.num_slots
    → delay < time_capacity b
    → (idx : ℕ) × (get_slot_idx b delay ≡ some idx) × (idx < b.num_slots)
get_slot_idx-bounded b delay p two w =
    let k = delay / b.resolution in
    let r = delay % b.resolution in
    let split : k * b.resolution + r ≡ delay = omega (arith, div-add-mod delay b.resolution) in
    let low : k < b.num_slots = (div-lt_iff_lt-mul p).1 (omega arith) in
    let closed = get_slot_idx-closed b k r (mod-lt delay p) (omega arith) in
    (
      rounded b.is_bottom b.resolution r (counted_slot k r),
      rw split at closed,
      rounded-counted_slot b k r two low,
    )

-- The slots do not grow with the delay: from two resolutions on, a delay of a whole number of
-- resolutions goes one slot further than one that is longer by less than a resolution.
pub get_slot_idx-not_monotone :
    (b : Bucket) (k r : ℕ)
    → 0 < r
    → r < b.resolution
    → suc (suc k) * b.resolution + r ≤ time_capacity b
    → (get_slot_idx b (suc (suc k) * b.resolution) ≡ some (suc (suc k)))
      × (get_slot_idx b (suc (suc k) * b.resolution + r) ≡ some (suc k))
get_slot_idx-not_monotone b k r p h w =
    let whole = get_slot_idx-closed b (suc (suc k)) 0 (omega arith) (omega arith) in
    let longer = get_slot_idx-closed b (suc (suc k)) r h w in
    let exact : suc (suc k) * b.resolution + 0 ≡ suc (suc k) * b.resolution = omega arith in
    (rw exact at whole ∙ ground arith, longer ∙ ground arith)
