-- ===== src/Tests/Consumer.antt =====
-- A consumer of a shard without parents.
use kclpp.Prelude.{◌≡◌, refl, true, false, none, some, [], ◌∷◌}
use kclpp.Outcome.{Outcome, success}
use kclpp.ShardIterator.{create_new}
use kclpp.Leases.Sequence.{ExtendedSequenceNumber}
use kclpp.Consumer.{
  ShardConsumerParams, trim_horizon, ShardConsumer, ShardConsumerError, new_consumer, step,
  start_initializing, request_shutdown, processor_initialized, processing_told, shutdown_requested,
  processing, ready_for_processing, shutdown_complete, idle, awaiting_processor, awaiting_batch,
  awaiting_checkpoint, initializing, shutdown_told,
}
use kclpp.Consumer.Phases.{IsSound, here, further, Reaches-IsSound}
use kclpp.Consumer.Shutdown.{answer, and_after, request_shutdown-completes, request_shutdown-lost}

abbrev params : ShardConsumerParams
params = record {
  parent_shard_ids = [];
  initial_position = trim_horizon;
  call_process_records_if_empty = false;
}

abbrev initial : ShardConsumer
initial = record (new_consumer params) { state_type = initializing; phase = awaiting_checkpoint }

starts : step start_initializing (new_consumer params) ≡ some ([], initial)
unfolding step new_consumer
starts = refl

Reaches-IsSound_example : IsSound initial
Reaches-IsSound_example = Reaches-IsSound params initial (further start_initializing here starts)

abbrev checkpoint : ExtendedSequenceNumber
checkpoint = record { sequence_number = "49"; sub_sequence_number = none }

abbrev reading : ShardConsumer
reading = record {
  params = params;
  state_type = processing;
  shard_iterator = some (create_new "it");
  has_shutdown_callback = false;
  phase = awaiting_batch;
}

request_shutdown-completes_example :
    (told : Outcome (Unit {0}) ShardConsumerError) × (c' : ShardConsumer) × (and_after
        (and_after (step request_shutdown reading) (
          answer
            (success (record { records = "r" ∷ []; next_shard_iterator = "jt" }))
            (success tt)))
        (answer (success (record { records = "r" ∷ []; next_shard_iterator = "jt" })) (success tt))
      ≡ some (shutdown_told told ∷ [], c'))
    × (c'.state_type ≡ shutdown_complete)
    × (c'.phase ≡ idle)
request_shutdown-completes_example =
    request_shutdown-completes reading
      (success (record { records = "r" ∷ []; next_shard_iterator = "jt" })) (success tt) refl refl
      refl

abbrev waiting : ShardConsumer
waiting = record reading { state_type = ready_for_processing; phase = awaiting_processor }

abbrev asked : ShardConsumer
asked = record waiting { state_type = shutdown_requested; has_shutdown_callback = true }

abbrev deaf : ShardConsumer
deaf = record reading { has_shutdown_callback = true }

asked_run : step request_shutdown waiting ≡ some ([], asked)
unfolding step
asked_run = refl

deaf_run :
    step (processor_initialized (success tt)) asked ≡ some (processing_told (success tt) ∷ [], deaf)
unfolding step
deaf_run = refl

request_shutdown-lost_example : deaf.state_type ≡ processing
request_shutdown-lost_example =
    request_shutdown-lost waiting asked deaf deaf [] (processing_told (success tt) ∷ []) refl
      asked_run deaf_run here
