-- ===== src/Leases/Codec.antt =====
-- `Lease::fromDynamoDict` and `Lease::toDynamoDict` (src/kclpp/leases/Lease.cpp). An attribute of
-- DynamoDB is a text or the text of a number; reading it as the other kind gives the empty text.
-- Parsing carries `errno` (see Util) from one number to the next.
pub mod RoundTrip
use kclpp.Prelude.{
  ℕ, ◌≡◌, String, Bool, true, false, Option, none, some, List, [], ◌∷◌, str_eq, if◌then◌else◌,
}
use kclpp.Prelude.Dict.{Dict, find_option, insert}
use kclpp.Outcome.{Outcome, success, failure}
use kclpp.Util.{
  DeserializationError, missing_lease_key, non_string_lease_key, missing_lease_owner,
  bad_lease_counter, bad_owner_switches, bad_last_increment, safe_str_to_ull, print_ull,
}
use kclpp.Leases.Lease.{LeaseState, Lease, empty_state}

pub data AttributeValue : Type 0 where
  text : String → AttributeValue
  number : List ℕ → AttributeValue

abbrev pub get_s : AttributeValue → String
get_s (text s) = s
get_s (number n) = ""

abbrev pub get_n : AttributeValue → List ℕ
get_n (text s) = []
get_n (number n) = n

abbrev pub DynamoDict : Type 0
DynamoDict = Dict AttributeValue

-- A step of the parser takes `errno` and returns it.
abbrev pub Parse : Type 0 → Type 0
Parse A = Bool → Outcome A DeserializationError × Bool

abbrev pub and_then :
    {A B : Type 0}
    → Outcome A DeserializationError × Bool
    → (A → Parse B)
    → Outcome B DeserializationError × Bool
and_then (success a, errno) f = f a errno
and_then (failure e, errno) f = (failure e, errno)

infixl 5 ◌>>=◌
abbrev pub ◌>>=◌ : {A B : Type 0} → Parse A → (A → Parse B) → Parse B
◌>>=◌ m f errno = and_then (m errno) f

abbrev pub return : {A : Type 0} → A → Parse A
return a errno = (success a, errno)

abbrev pub throw : {A : Type 0} → DeserializationError → Parse A
throw e errno = (failure e, errno)

read_key : Option AttributeValue → Parse String
read_key none = throw missing_lease_key
read_key (some v) = if str_eq (get_s v) "" then throw non_string_lease_key else return (get_s v)

read_owner : Option AttributeValue → Parse (Option String)
read_owner none = throw missing_lease_owner
read_owner (some v) = return (if str_eq (get_s v) "" then none else some (get_s v))

read_text : Option AttributeValue → Option String
read_text none = none
read_text (some v) = some (get_s v)

read_number : (List ℕ → DeserializationError) → List ℕ → Parse (Option ℕ)
read_number bad [] errno = (success none, errno)
read_number bad (c ∷ cs) errno =
    let (r, errno') = safe_str_to_ull errno (c ∷ cs) in
    elim r [ success n ↦ (success (some n), errno') | failure e ↦ (failure (bad (c ∷ cs)), errno') ]

-- a number that is missing is 0; one that is no number is left unset
read_count : (List ℕ → DeserializationError) → Option AttributeValue → Parse (Option ℕ)
unfolding read_number
read_count bad none = return (some 0)
read_count bad (some v) = read_number bad (get_n v)

unfoldable pub from_dynamo_dict : DynamoDict → Parse Lease
unfolding read_key read_owner read_text read_count
from_dynamo_dict d = do
  key ← read_key (find_option d "leaseKey")
  owner ← read_owner (find_option d "leaseOwner")
  counter ← read_count bad_lease_counter (find_option d "leaseCounter")
  switches ← read_count bad_owner_switches (find_option d "ownerSwitchesSinceCheckpoint")
  last ← read_count bad_last_increment (find_option d "lastCounterIncrementNanoseconds")
  return (record empty_state {
    lease_key = key;
    lease_owner = owner;
    checkpoint_id = read_text (find_option d "checkpoint");
    sub_checkpoint_id = read_text (find_option d "checkpointSubSequenceNumber");
    lease_counter = counter;
    owner_switches_since_checkpoint = switches;
    last_counter_increment_nanoseconds = last;
  })

insert_text : String → Option String → DynamoDict → DynamoDict
insert_text name none d = d
insert_text name (some s) d = insert name (text s) d

abbrev pub count_or_zero : Option ℕ → ℕ
count_or_zero none = 0
count_or_zero (some n) = n

insert_count : String → Option ℕ → DynamoDict → DynamoDict
insert_count name n d = insert name (number (print_ull (count_or_zero n))) d

unfoldable pub to_dynamo_dict : Lease → DynamoDict
unfolding insert_text insert_count
to_dynamo_dict l =
    let d₀ : DynamoDict = ("leaseKey", text l.lease_key) ∷ [] in
    let d₁ = insert_text "leaseOwner" l.lease_owner d₀ in
    let d₂ = insert_text "checkpoint" l.checkpoint_id d₁ in
    let d₃ = insert_text "checkpointSubSequenceNumber" l.sub_checkpoint_id d₂ in
    let d₄ = insert_count "leaseCounter" l.lease_counter d₃ in
    let d₅ = insert_count "ownerSwitchesSinceCheckpoint" l.owner_switches_since_checkpoint d₄ in
    insert_count "lastCounterIncrementNanoseconds" l.last_counter_increment_nanoseconds d₅
