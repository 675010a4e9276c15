-- ===== src/Leases/Codec/RoundTrip.antt =====
-- Reading back what `toDynamoDict` writes.
use kclpp.Prelude.{
  ℕ, ◌≤◌, ◌≡◌, refl, ◌≢◌, String, Bool, false, Option, none, some, List, [], arith, str_eq, str_lt,
  str_eq-eq_false, Option-cases, Bool-cases, inl, inr,
}
use kclpp.Prelude.Dict.{find_option, insert}
use kclpp.Outcome.{success, failure}
use kclpp.Util.{
  bad_lease_counter, bad_owner_switches, bad_last_increment, missing_lease_owner, missing_lease_key,
  non_string_lease_key, ullong_max, print_ull, DeserializationError,
}
use kclpp.Util.Decimal.{safe_str_to_ull-print_ull, print_ull_cons}
use kclpp.Leases.Lease.{Lease}
use kclpp.Leases.Codec.{
  AttributeValue, text, number, get_s, from_dynamo_dict, to_dynamo_dict, count_or_zero, DynamoDict,
  read_count, read_number, read_key, read_owner, read_text, and_then,
}

abbrev text_value : Option String → Option AttributeValue
text_value none = none
text_value (some s) = some (text s)

abbrev count_value : Option ℕ → Option AttributeValue
count_value n = some (number (print_ull (count_or_zero n)))

-- What each attribute of the written dictionary holds.
record Writes (l : Lease) (d : DynamoDict) : Type 0 where
  key : find_option d "leaseKey" ≡ some (text l.lease_key)
  owner : find_option d "leaseOwner" ≡ text_value l.lease_owner
  checkpoint : find_option d "checkpoint" ≡ text_value l.checkpoint_id
  sub : find_option d "checkpointSubSequenceNumber" ≡ text_value l.sub_checkpoint_id
  counter : find_option d "leaseCounter" ≡ count_value l.lease_counter
  switches :
      find_option d "ownerSwitchesSinceCheckpoint" ≡ count_value l.owner_switches_since_checkpoint
  last :
      find_option d "lastCounterIncrementNanoseconds"
      ≡ count_value l.last_counter_increment_nanoseconds

to_dynamo_dict-Writes : (l : Lease) → Writes l (to_dynamo_dict l)
unfolding to_dynamo_dict find_option insert str_eq str_lt
to_dynamo_dict-Writes l = ground arith

read_number-print_ull :
    (bad : List ℕ → DeserializationError) (n : ℕ)
    → n ≤ ullong_max
    → read_number bad (print_ull n) false ≡ (success (some n), false)
unfolding read_number
read_number-print_ull bad n h =
    let (c, cs, e) = print_ull_cons n in
    let r = safe_str_to_ull-print_ull false n h in rw (e, read_number) (rw (← e, r) (ground arith))

read_count-value :
    (bad : List ℕ → DeserializationError) (n : Option ℕ)
    → count_or_zero n ≤ ullong_max
    → read_count bad (count_value n) false ≡ (success (some (count_or_zero n)), false)
unfolding read_count
read_count-value bad n h = read_number-print_ull bad (count_or_zero n) h

read_text-value : (o : Option String) → read_text (text_value o) ≡ o
unfolding read_text
read_text-value none = refl
read_text-value (some s) = refl

-- What a lease keeps when it is written to the table: numbers that were unset become 0, and the
-- token and the parent shards are left out.
abbrev pub stored : Lease → Lease
stored l = record l {
  concurrency_token = none;
  parent_shard_ids = [];
  lease_counter = some (count_or_zero l.lease_counter);
  owner_switches_since_checkpoint = some (count_or_zero l.owner_switches_since_checkpoint);
  last_counter_increment_nanoseconds = some (count_or_zero l.last_counter_increment_nanoseconds);
}

-- The numbers of a lease fit in 64 bits, and its key is not empty.
pub record IsStorable (l : Lease) : Type 0 where
  pub named : l.lease_key ≢ ""
  pub counter_fits : count_or_zero l.lease_counter ≤ ullong_max
  pub switches_fit : count_or_zero l.owner_switches_since_checkpoint ≤ ullong_max
  pub last_fits : count_or_zero l.last_counter_increment_nanoseconds ≤ ullong_max

-- A storable lease with an owner is read back from the table as it was written, up to what
-- `stored` leaves out, if `errno` was clear.
pub from_dynamo_dict-to_dynamo_dict :
    (l : Lease) (o : String)
    → IsStorable l
    → l.lease_owner ≡ some o
    → o ≢ ""
    → from_dynamo_dict (to_dynamo_dict l) false ≡ (success (stored l), false)
unfolding from_dynamo_dict
from_dynamo_dict-to_dynamo_dict l o s e h =
    let w = to_dynamo_dict-Writes l in
    let key_named = str_eq-eq_false l.lease_key "" s.named in
    let owner_named = str_eq-eq_false o "" h in
    rw (w.key, w.owner, w.checkpoint, w.sub, w.counter, w.switches, w.last)
      (rw (e, key_named, owner_named, read_owner, read_key)
        (rw (read_count-value bad_lease_counter _ s.counter_fits, and_then)
          (rw (read_count-value bad_owner_switches _ s.switches_fit, and_then)
            (rw (read_count-value bad_last_increment _ s.last_fits, and_then)
              (rw (read_text-value l.checkpoint_id, read_text-value l.sub_checkpoint_id) refl)))))

-- A lease without an owner cannot be read back: `toDynamoDict` leaves the attribute out, and
-- `fromDynamoDict` refuses an item without it.
pub from_dynamo_dict_unowned :
    (l : Lease) (errno : Bool)
    → l.lease_key ≢ ""
    → l.lease_owner ≡ none
    → from_dynamo_dict (to_dynamo_dict l) errno ≡ (failure missing_lease_owner, errno)
unfolding from_dynamo_dict
from_dynamo_dict_unowned l errno h e =
    let w = to_dynamo_dict-Writes l in
    rw (w.key, w.owner, e) (rw (str_eq-eq_false l.lease_key "" h, read_key) refl)

-- No item without the attribute of the owner can be read.
pub from_dynamo_dict-no_owner :
    (it : DynamoDict) (errno : Bool)
    → find_option it "leaseOwner" ≡ none
    → (e : DeserializationError) × ((from_dynamo_dict it errno).0 ≡ failure e)
unfolding from_dynamo_dict read_key
from_dynamo_dict-no_owner it errno h = rw h (elim (Option-cases (find_option it "leaseKey")) [
  | inl e ↦ (missing_lease_key, rw e refl)
  | inr (v, e) ↦ elim (Bool-cases (str_eq (get_s v) "")) [
    | inl b ↦ (non_string_lease_key, rw e (rw b refl))
    | inr b ↦ (missing_lease_owner, rw e (rw b refl))
  ]
])
