-- ===== src/Consumer.antt =====
-- include/kclpp/clientlib/worker/ShardConsumer.h and
-- src/kclpp/clientlib/worker/ShardConsumer.cpp: the state machine that reads one shard. It works
-- by callbacks, so each request is a phase in which the consumer waits, and each answer is an
-- event; a handler is the code that runs from one wait to the next. A `DCHECK` that fails ends the
-- process, as it does in a debug build: the step is then none. The record processor, the
-- checkpointer and the stream are other parts: what they answer comes with the events. The
-- fields of the state that no method touches are left out.
mod State
pub mod Shutdown
pub mod Phases
pub use State.*
use kclpp.Prelude.{
  ℕ, String, Bool, true, false, not, ◌&&◌, ◌||◌, Option, none, some, List, [], ◌∷◌, ◌++◌, is_empty,
  length, has_value, if◌then◌else◌,
}
use kclpp.Outcome.{Outcome, success, failure}
use kclpp.ShardIterator.{ShardIterator, GetRecordsResult, create_new, is_at_end, on_records}
use kclpp.Leases.Sequence.{ExtendedSequenceNumber}

abbrev pub may_start : ShardConsumerStateType → Bool
may_start not_started = true
may_start failed_to_initialize = true
may_start _ = false

abbrev pub is_processing : ShardConsumerStateType → Bool
is_processing processing = true
is_processing _ = false

abbrev pub is_ready : ShardConsumerStateType → Bool
is_ready ready_for_processing = true
is_ready _ = false

abbrev pub is_shutdown_requested : ShardConsumerStateType → Bool
is_shutdown_requested shutdown_requested = true
is_shutdown_requested _ = false

-- there is an iterator that is not at its end
abbrev pub can_read : Option ShardIterator → Bool
can_read none = false
can_read (some it) = has_value it.next_id

-- `startInitializing`, through `waitOnParentShards`, which answers at once, to `doInitialize`
unfoldable pub on_start_initializing : ShardConsumer → Step
on_start_initializing c =
    if may_start c.state_type
      && (not (has_value c.shard_iterator) && is_empty c.params.parent_shard_ids)
    then some ([], record c { state_type = initializing; phase = awaiting_checkpoint })
    else none

abbrev pub iterator_request :
    InitialPositionInStream → Option ExtendedSequenceNumber → IteratorRequest
iterator_request position (some n) = after_sequence_number n.sequence_number
iterator_request trim_horizon none = from_trim_horizon
iterator_request latest none = from_latest

-- the callback of `getCheckpoint` in `doInitialize`
unfoldable pub on_checkpoint :
    Outcome (Option ExtendedSequenceNumber) ShardConsumerError → ShardConsumer → Step
on_checkpoint (failure e) c = some (initializing_told (failure e) ∷ [], record c { phase = idle })
on_checkpoint (success n) c =
    if has_value c.shard_iterator
    then none
    else some
        ([], record c { phase = awaiting_iterator (iterator_request c.params.initial_position n) })

-- the callback of `getShardIteratorAsync`; a new iterator is never at its end
unfoldable pub on_iterator : Outcome String ShardConsumerError → ShardConsumer → Step
unfolding is_at_end
on_iterator (failure e) c = some (initializing_told (failure e) ∷ [], record c { phase = idle })
on_iterator (success id) c =
    let it = create_new id in
    if is_at_end it
    then some
        (initializing_told (failure "Already at end of shard.") ∷ [], record c { phase = idle })
    else some (
      initializing_told (success tt) ∷ [],
      record c { shard_iterator = some it; state_type = ready_for_processing; phase = idle },
    )

unfoldable pub on_start_processing : ShardConsumer → Step
on_start_processing c =
    if is_ready c.state_type && can_read c.shard_iterator
    then some ([], record c { phase = awaiting_processor })
    else none

-- the part of `onProcessingStop` that follows on a request to shut down
on_shutdown : Outcome ℕ ShardConsumerError → ShardConsumer → Step
on_shutdown (success n) c =
    some (if c.has_shutdown_callback then shutdown_told (success tt) ∷ [] else [], c)
on_shutdown (failure e) c =
    if c.has_shutdown_callback then some (shutdown_told (failure e) ∷ [], c) else none

-- `onProcessingStop`
unfoldable pub on_processing_stop : Outcome ℕ ShardConsumerError → ShardConsumer → Step
unfolding on_shutdown
on_processing_stop outcome c =
    if is_processing c.state_type
    then none
    else if is_shutdown_requested c.state_type
    then on_shutdown outcome (record c { state_type = shutdown_complete; phase = idle })
    else some ([], record c { phase = idle })

-- `processBatches`, up to the request of `processNextBatchInner`
unfoldable pub process_batches : ShardConsumer → Step
unfolding on_processing_stop
process_batches c =
    if is_processing c.state_type
    then (if can_read c.shard_iterator
        then some ([], record c { phase = awaiting_batch })
        else none)
    else on_processing_stop (success 0) c

-- the callback of `processNextBatchInner` in `processBatches`
unfoldable pub on_batch_done : Outcome ℕ ShardConsumerError → ShardConsumer → Step
unfolding on_processing_stop
on_batch_done (failure e) c = on_processing_stop (failure e) c
on_batch_done (success n) c =
    if is_processing c.state_type
    then some ([], record c { phase = posted })
    else on_processing_stop (success n) c

-- the callback of `getNextBatch`
unfoldable pub on_batch : Outcome GetRecordsResult ShardConsumerError → ShardConsumer → Step
unfolding on_batch_done
on_batch (failure e) c = on_batch_done (failure e) c
on_batch (success r) c =
    let advanced = record c {
      shard_iterator = elim c.shard_iterator [
        | none ↦ none
        | some it ↦ some (on_records {E = ShardConsumerError} (success r) it)
      ];
    } in
    if not (is_empty r.records) || c.params.call_process_records_if_empty
    then some ([], record advanced { phase = awaiting_records (length r.records) })
    else on_batch_done (success 0) advanced

-- the callback of `processRecords`
unfoldable pub on_records_processed :
    ℕ → Outcome (Unit {0}) ShardConsumerError → ShardConsumer → Step
unfolding on_batch_done
on_records_processed n (failure e) c = on_batch_done (failure e) c
on_records_processed n (success u) c = on_batch_done (success n) c

-- the callback of the record processor's `initialize`; `startProcessing` answers after the first
-- request of `processBatches` went out
after_processor : Step → Step
after_processor none = none
after_processor (some (calls, c)) = some (calls ++ (processing_told (success tt) ∷ []), c)

unfoldable pub on_processor : Outcome (Unit {0}) ShardConsumerError → ShardConsumer → Step
unfolding process_batches after_processor
on_processor (failure e) c =
    some (
      processing_told (failure e) ∷ [],
      record c { state_type = failed_to_initialize; phase = idle },
    )
on_processor (success u) c =
    after_processor (process_batches (record c { state_type = processing }))

unfoldable pub on_request_shutdown : ShardConsumer → Step
on_request_shutdown c =
    if c.has_shutdown_callback
    then none
    else some ([], record c { has_shutdown_callback = true; state_type = shutdown_requested })

-- One step. An answer is possible only in the phase that waits for it; elsewhere the step is none,
-- and so it is where a check fails. The user starts a phase only where none is under way.
unfoldable pub step : Event → ShardConsumer → Step
unfolding on_start_initializing on_checkpoint on_iterator on_start_processing on_processor on_batch
    on_records_processed on_request_shutdown process_batches
step request_shutdown c = on_request_shutdown c
step start_initializing c = elim c.phase [ idle ↦ on_start_initializing c | _ ↦ none ]
step start_processing c = elim c.phase [ idle ↦ on_start_processing c | _ ↦ none ]
step (checkpoint_read o) c = elim c.phase [ awaiting_checkpoint ↦ on_checkpoint o c | _ ↦ none ]
step (iterator_read o) c = elim c.phase [ awaiting_iterator r ↦ on_iterator o c | _ ↦ none ]
step (processor_initialized o) c = elim c.phase [ awaiting_processor ↦ on_processor o c | _ ↦ none ]
step (batch_read o) c = elim c.phase [ awaiting_batch ↦ on_batch o c | _ ↦ none ]
step (records_processed o) c = elim c.phase [
  | awaiting_records n ↦ on_records_processed n o c
  | _ ↦ none
]
step event_thread_runs c = elim c.phase [ posted ↦ process_batches c | _ ↦ none ]

unfoldable pub new_consumer : ShardConsumerParams → ShardConsumer
new_consumer params = record {
  params = params;
  state_type = get_initial_shard_consumer_state_type;
  shard_iterator = none;
  has_shutdown_callback = false;
  phase = idle;
}
