-- ===== src/Leases/Taker/Scan.antt =====
-- What `updateAllLeases` makes of the map of known leases.
use kclpp.Prelude.{
  ℕ, ◌≡◌, refl, String, not, ◌&&◌, Option, none, some, List, [], ◌∷◌, arith, subst, ap, Bool-cases,
  inl, inr, true, ◌≢◌, sym, ◌∙◌, Option-cases, str_eq, str_eq_iff, if◌then◌else◌, has_value,
}
use kclpp.Prelude.Dict.{
  Dict, keys, find_option, contains, find_option-insert_or_update, find_option-remove_if_exists,
  insert_or_update, remove_key, contains-remove_key, contains-keys, remove_if_exists,
  insert_or_update, remove_key,
}
use kclpp.Outcome.{success}
use kclpp.Leases.Lease.{Lease}
use kclpp.Leases.Taker.{
  LeaseTakerState, optional_eq, updated_state, update_lease, update_loop, remove_all,
  update_all_leases,
}

-- The lease of a listing under a key.
abbrev pub listed : String → List Lease → Option Lease
listed k [] = none
listed k (l ∷ ls) = if str_eq l.lease_key k then some l else listed k ls

-- No key is listed twice.
abbrev pub HasDistinctKeys : List Lease → Type 0
HasDistinctKeys [] = Unit {0}
HasDistinctKeys (l ∷ ls) = (listed l.lease_key ls ≡ none) × HasDistinctKeys ls

abbrev map_or {ℓ} : {A B : Type ℓ} → B → (A → B) → Option A → B
map_or b f none = b
map_or b f (some a) = f a

update_loop-find_option :
    (now : ℕ) (ls : List Lease) (nu : List String) (m : Dict Lease) (k : String)
    → HasDistinctKeys ls
    → find_option (update_loop now ls (nu, m)).1 k
      ≡ map_or (find_option m k) (λ l. some (updated_state now (find_option m k) l)) (listed k ls)
unfolding update_loop update_lease
update_loop-find_option now [] nu m k d = refl
update_loop-find_option now (l ∷ ls) nu m k d =
    let old = find_option m l.lease_key in
    let m' = insert_or_update l.lease_key (updated_state now old l) m in
    let nu' = remove_key l.lease_key nu in
    let rest = update_loop-find_option now ls nu' m' k d.1 in
    let here = find_option-insert_or_update l.lease_key k (updated_state now old l) m in
    elim (Bool-cases (str_eq l.lease_key k)) [
      | inl same ↦
          let e = (str_eq_iff l.lease_key k).0 same in
          let gone = subst (λ j. listed j ls ≡ none) e d.0 in
          let known = ap (find_option m) e in rw (rest, gone, here, same, known) refl
      | inr other ↦ rw (rest, here, other) refl
    ]

update_loop-contains :
    (now : ℕ) (ls : List Lease) (nu : List String) (m : Dict Lease) (k : String)
    → contains k (update_loop now ls (nu, m)).0 ≡ contains k nu && not (has_value (listed k ls))
unfolding update_loop update_lease
update_loop-contains now [] nu m k = ground arith
update_loop-contains now (l ∷ ls) nu m k =
    let old = find_option m l.lease_key in
    let m' = insert_or_update l.lease_key (updated_state now old l) m in
    let rest = update_loop-contains now ls (remove_key l.lease_key nu) m' k in
    rw (rest, contains-remove_key) (ground arith)

remove_all-find_option :
    (ks : List String) (m : Dict Lease) (k : String)
    → find_option (remove_all ks m) k ≡ (if contains k ks then none else find_option m k)
unfolding remove_all contains
remove_all-find_option [] m k = refl
remove_all-find_option (j ∷ js) m k =
    ground (
      arith,
      remove_all-find_option js (remove_if_exists j m) k,
      find_option-remove_if_exists j k m,
    )

known_or_listed :
    (now : ℕ) (old new : Option Lease)
    → (if has_value old && not (has_value new)
        then none
        else map_or old (λ l. some (updated_state now old l)) new)
      ≡ map_or none (λ l. some (updated_state now old l)) new
known_or_listed now none none = refl
known_or_listed now (some a) none = refl
known_or_listed now none (some b) = refl
known_or_listed now (some a) (some b) = refl

-- The time at which the counter of a lease was last seen to move, once a scan at time `now` has found the
-- lease `new` where `old` was known: the time of the scan if the counter differs from the known one, the
-- time that was known if it does not, and for a lease that was not known the time of the scan if it has
-- an owner.
abbrev pub IsSeen : ℕ → Option Lease → Lease → Option ℕ → Type 0
IsSeen now old new seen =
    ((l : Lease)
      → old ≡ some l
      → (l.lease_counter ≡ new.lease_counter → seen ≡ l.last_counter_increment_nanoseconds)
        × (l.lease_counter ≢ new.lease_counter → seen ≡ some now))
    × (old ≡ none → (o : String) → new.lease_owner ≡ some o → seen ≡ some now)
    × (old ≡ none → new.lease_owner ≡ none → seen ≡ none)

optional_eq_iff :
    (a b : Option ℕ) → (optional_eq a b ≡ true → a ≡ b) × (a ≡ b → optional_eq a b ≡ true)
optional_eq_iff none none = (λ h. refl, λ h. refl)
optional_eq_iff none (some b) = (λ h. ground (arith, h), λ h. ground (arith, h))
optional_eq_iff (some a) none = (λ h. ground (arith, h), λ h. ground (arith, h))
optional_eq_iff (some a) (some b) = (λ h. ground (arith, h), λ h. ground (arith, h))

updated_state-IsSeen :
    (now : ℕ) (old : Option Lease) (new : Lease)
    → (seen : Option ℕ) × (updated_state now old new
        ≡ record new { last_counter_increment_nanoseconds = seen })
      × IsSeen now old new seen
updated_state-IsSeen now none new = elim (Option-cases new.lease_owner) [
  | inl e ↦ (
    none,
    ground (arith, e),
    (λ l h. ground (arith, h), λ h o f. ground (arith, e, f), λ h f. refl),
  )
  | inr (o, e) ↦ (
    some now,
    ground (arith, e),
    (λ l h. ground (arith, h), λ h p f. refl, λ h f. ground (arith, e, f)),
  )
]
updated_state-IsSeen now (some old) new =
    let iff = optional_eq_iff old.lease_counter new.lease_counter in
    elim (Bool-cases (optional_eq old.lease_counter new.lease_counter)) [
      | inl e ↦ (
        old.last_counter_increment_nanoseconds,
        rw e refl,
        (
          λ l h.
              let same : old ≡ l = ground (arith, h) in
              (
                λ c. ap (λ x. x.last_counter_increment_nanoseconds) same,
                λ c. absurd (c (ap (λ x. x.lease_counter) (sym same) ∙ iff.0 e)),
              ),
          λ h o f. ground (arith, h),
          λ h f. ground (arith, h),
        ),
      )
      | inr e ↦ (
        some now,
        rw e refl,
        (
          λ l h.
              let same : old ≡ l = ground (arith, h) in
              (λ c. ground (arith, e, iff.1 (ap (λ x. x.lease_counter) same ∙ c)), λ c. refl),
          λ h o f. ground (arith, h),
          λ h f. ground (arith, h),
        ),
      )
    ]

-- After a successful scan at time `now` whose listing names no key twice, the taker knows exactly
-- the listed leases: under each key that is listed stands the listed lease, the time
-- at which its counter was last seen to move set anew. That is the time of the scan if the counter
-- differs from the one that was known under the key before, the time that was known if it does not, and
-- for a key that was not known the time of the scan if the lease has an owner, none if it has not. Every
-- other key is forgotten. The scan time is recorded.
pub update_all_leases-success :
    {E : Type 0} (ls : List Lease) (now : ℕ) (s : LeaseTakerState) (k : String)
    → HasDistinctKeys ls
    → let (r, t) = update_all_leases {E = E} (success ls) now s in
      (r ≡ success tt)
      × (t.last_scan_time ≡ some now)
      × (t.params ≡ s.params)
      × (listed k ls ≡ none → find_option t.all_leases k ≡ none)
      × ((new : Lease)
          → listed k ls ≡ some new
          → (seen : Option ℕ) × (find_option t.all_leases k
              ≡ some (record new { last_counter_increment_nanoseconds = seen }))
            × IsSeen now (find_option s.all_leases k) new seen)
unfolding update_all_leases
update_all_leases-success {E = E} ls now s k d =
    let found = update_loop-find_option now ls (keys s.all_leases) s.all_leases k d in
    let stale = update_loop-contains now ls (keys s.all_leases) s.all_leases k in
    let known = contains-keys k s.all_leases in
    let held : find_option (update_all_leases {E = E} (success ls) now s).1.all_leases k
        ≡ map_or none (λ l. some (updated_state now (find_option s.all_leases k) l)) (listed k ls) =
      rw (remove_all-find_option, found, stale, known)
        (known_or_listed now (find_option s.all_leases k) (listed k ls)) in
    (
      refl,
      refl,
      refl,
      λ e. held ∙ ap (map_or none _) e,
      λ new e.
          let (seen, same, timed) = updated_state-IsSeen now (find_option s.all_leases k) new in
          (seen, held ∙ ap (map_or none _) e ∙ ap some same, timed),
    )
