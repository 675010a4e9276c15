-- ===== src/ShardIterator.antt =====
-- include/kclpp/kinesis/ShardIterator.h and src/kclpp/kinesis/ShardIterator.cpp: the position of a
-- reader in a shard. The properties and the client that it carries have no part in its behaviour.
-- `getNextBatch` is two steps, the request and the callback with what the service answers.
use text.Mathlib.Text.{starts_with}
use kclpp.Prelude.{
  ℕ, String, Bool, not, ◌||◌, Option, none, some, List, str_eq, if◌then◌else◌, has_value,
}
use kclpp.Outcome.{Outcome, success, failure}

pub record ShardIterator : Type 0 where
  pub current_id : String
  pub next_id : Option String

-- what a batch carries: its records and the iterator that follows, empty or `null...` at the end
pub record GetRecordsResult : Type 0 where
  pub records : List String
  pub next_shard_iterator : String

-- `createNew`, from the id of the description
abbrev pub create_new : String → ShardIterator
create_new id = record { current_id = ""; next_id = some id }

unfoldable pub is_at_end : ShardIterator → Bool
is_at_end it = not (has_value it.next_id)

-- the id and the limit of the request; `CHECK(!isAtEnd())` fails at none
abbrev pub get_next_batch_request : ShardIterator → ℕ → Option (String × ℕ)
get_next_batch_request it limit = elim it.next_id [ none ↦ none | some id ↦ some (id, limit) ]

abbrev pub following : String → Option String
following id = if str_eq id "" || starts_with id "null" then none else some id

abbrev pub id_or_empty : Option String → String
id_or_empty none = ""
id_or_empty (some id) = id

-- the callback of `getRecordsAsync`
unfoldable pub on_records :
    {E : Type 0} → Outcome GetRecordsResult E → ShardIterator → ShardIterator
on_records (failure e) it = it
on_records (success r) it = record {
  current_id = id_or_empty it.next_id;
  next_id = following r.next_shard_iterator;
}
