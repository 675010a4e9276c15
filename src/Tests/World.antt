-- ===== src/Tests/World.antt =====
-- A small lease table, a service that keeps it, and the worker `w1`.
use kclpp.Prelude.{
  ◌≡◌, ◌≢◌, refl, sym, ap, inl, inr, String, Bool, true, false, Option, none, some, [], ◌∷◌, arith,
  str_eq, str_eq_iff, str_eq_refl, str_eq-eq_false, if◌then◌else◌, take, Bool-cases,
}
use kclpp.Prelude.Dict.{
  Dict, find_option, values, insert_or_update, remove_if_exists, find_option-insert_or_update,
}
use kclpp.Outcome.{Outcome, success, failure}
use kclpp.Leases.Lease.{Lease, empty_state}
use kclpp.Leases.Codec.{DynamoDict, to_dynamo_dict, get_s}
use kclpp.Leases.Dynamo.{
  Dynamo, IsDynamo, AwsError, conditional_check_failed, other_error, meets, apply_updates,
  item_or_key,
}

abbrev Items : Type 0
Items = Dict DynamoDict

abbrev answered : String → Bool → Items → Items → Outcome (Unit {0}) AwsError × Items
answered table holds new st =
    if str_eq table ""
    then (failure (other_error "no table"), st)
    else if holds
    then (success tt, new)
    else (failure conditional_check_failed, st)

abbrev key_of : DynamoDict → String
key_of it = elim (find_option it "leaseKey") [ none ↦ "" | some v ↦ get_s v ]

abbrev found : Option DynamoDict → DynamoDict
found none = []
found (some it) = it

-- One table, whatever its name; a request without a name fails.
abbrev pub world : Dynamo
world = record {
  Store = Items;
  item = λ st table key. find_option st key;
  update_item = λ table key es us st.
      let it = item_or_key key (find_option st key) in
      answered table (meets es it) (insert_or_update key (apply_updates us it) st) st;
  put_item = λ table it es st.
      answered table (meets es (found (find_option st (key_of it))))
        (insert_or_update (key_of it) it st) st;
  delete_item = λ table key es st.
      answered table (meets es (found (find_option st key))) (remove_if_exists key st) st;
  get_item = λ table key st. success (found (find_option st key));
  scan = λ table limit st. success (take limit (values st));
}

-- The same, where a scan fails.
abbrev pub scanless : Dynamo
scanless = record world { scan = λ table limit st. failure (other_error "no scan") }

answered-success :
    (table : String) (holds : Bool) (new st st' : Items)
    → answered table holds new st ≡ (success tt, st')
    → (holds ≡ true) × (st' ≡ new)
answered-success table holds new st st' h = elim (Bool-cases (str_eq table "")) [
  | inl e ↦ absurd (ground (arith, rw e at h))
  | inr e ↦ elim (Bool-cases holds) [
    | inl m ↦ (m, sym (ap (λ r. r.1) (rw (e, m) at h)))
    | inr m ↦ absurd (ground (arith, rw (e, m) at h))
  ]
]

answered-failure :
    (table : String) (holds : Bool) (new st st' : Items) (e : AwsError)
    → answered table holds new st ≡ (failure e, st')
    → st' ≡ st
answered-failure table holds new st st' x h = elim (Bool-cases (str_eq table "")) [
  | inl e ↦ sym (ap (λ r. r.1) (rw e at h))
  | inr e ↦ elim (Bool-cases holds) [
    | inl m ↦ absurd (ground (arith, rw (e, m) at h))
    | inr m ↦ sym (ap (λ r. r.1) (rw (e, m) at h))
  ]
]

answered-refused :
    (table : String) (new st : Items)
    → (e : AwsError) × (answered table false new st ≡ (failure e, st))
answered-refused table new st = elim (Bool-cases (str_eq table "")) [
  | inl e ↦ (other_error "no table", rw e refl)
  | inr e ↦ (conditional_check_failed, rw e refl)
]

answered-unnamed :
    (holds : Bool) (new st : Items)
    → answered "" holds new st ≡ (failure (other_error "no table"), st)
unfolding str_eq
answered-unnamed holds new st = refl

pub world-IsDynamo : IsDynamo world
world-IsDynamo = record {
  update_success = λ table key es us st st' h.
      let (m, e) = answered-success table _ _ st st' h in
      (m, rw e (rw (find_option-insert_or_update, str_eq_refl) refl));
  update_others = λ table key other es us st st' h n.
      let (m, e) = answered-success table _ _ st st' h in
      rw e (rw (find_option-insert_or_update, str_eq-eq_false key other (λ q. n (sym q))) refl);
  update_refused = λ table key es us st h. rw h (
      answered-refused table
        (insert_or_update key (apply_updates us (item_or_key key (find_option st key))) st) st);
  update_failure = λ table key es us st st' e h. inl (answered-failure table _ _ st st' e h);
  update_no_table = λ key es us st. (other_error "no table", answered-unnamed _ _ st);
}

pub differ : (a b : String) → str_eq a b ≡ false → a ≢ b
differ a b h = ground (arith, str_eq_iff a b)

abbrev pub lease_a : Lease
lease_a = record empty_state {
  lease_key = "shard-0";
  lease_owner = some "w2";
  lease_counter = some 7;
  owner_switches_since_checkpoint = some 0;
  checkpoint_id = some "49";
  last_counter_increment_nanoseconds = some 100;
}

abbrev pub lease_b : Lease
lease_b = record lease_a { lease_key = "shard-1"; lease_counter = some 3 }

abbrev pub items : Items
items = ("shard-0", to_dynamo_dict lease_a) ∷ ("shard-1", to_dynamo_dict lease_b) ∷ []
