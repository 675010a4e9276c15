-- ===== src/Consumer/State.antt =====
-- The state of a shard consumer, what it waits for, and the answers that it gets, of ShardConsumer.h,
-- ShardConsumerStateType.h and InitialPositionInStream.h of include/kclpp/clientlib/worker.
use kclpp.Prelude.{ℕ, String, Bool, Option, List}
use kclpp.Outcome.{Outcome}
use kclpp.ShardIterator.{ShardIterator, GetRecordsResult}
use kclpp.Leases.Sequence.{ExtendedSequenceNumber}

pub data ShardConsumerStateType : Type 0 where
  not_started failed_to_initialize waiting_on_parent_shards initializing : ShardConsumerStateType
  ready_for_processing processing : ShardConsumerStateType
  shutdown_requested shutting_down shutdown_complete : ShardConsumerStateType

abbrev pub get_initial_shard_consumer_state_type : ShardConsumerStateType
get_initial_shard_consumer_state_type = not_started

pub data InitialPositionInStream : Type 0 where
  latest trim_horizon : InitialPositionInStream

-- the message of a `ShardConsumerError`
abbrev pub ShardConsumerError : Type 0
ShardConsumerError = String

-- the position that a `GetShardIteratorRequest` asks for
pub data IteratorRequest : Type 0 where
  after_sequence_number : String → IteratorRequest
  from_latest from_trim_horizon : IteratorRequest

-- what the consumer waits for
pub data Phase : Type 0 where
  idle awaiting_checkpoint awaiting_processor awaiting_batch : Phase
  awaiting_iterator : IteratorRequest → Phase
  -- `processRecords`, with the number of records
  awaiting_records : ℕ → Phase
  -- `processBatches`, posted to the event thread
  posted : Phase

pub record ShardConsumerParams : Type 0 where
  pub parent_shard_ids : List String
  pub initial_position : InitialPositionInStream
  pub call_process_records_if_empty : Bool

pub record ShardConsumer : Type 0 where
  pub params : ShardConsumerParams
  pub state_type : ShardConsumerStateType
  pub shard_iterator : Option ShardIterator
  pub has_shutdown_callback : Bool
  pub phase : Phase

-- a call of a callback of the consumer's user
pub data Call : Type 0 where
  initializing_told processing_told shutdown_told : Outcome (Unit {0}) ShardConsumerError → Call

pub data Event : Type 0 where
  start_initializing start_processing request_shutdown : Event
  checkpoint_read : Outcome (Option ExtendedSequenceNumber) ShardConsumerError → Event
  iterator_read : Outcome String ShardConsumerError → Event
  processor_initialized : Outcome (Unit {0}) ShardConsumerError → Event
  batch_read : Outcome GetRecordsResult ShardConsumerError → Event
  records_processed : Outcome (Unit {0}) ShardConsumerError → Event
  event_thread_runs : Event

-- the calls that a step makes and the consumer after it
abbrev pub Step : Type 0
Step = Option (List Call × ShardConsumer)
