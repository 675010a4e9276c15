-- ===== src/Consumer/Shutdown.antt =====
-- How a consumer stops: on a request, on an error, and when it does not.
use kclpp.Prelude.{
  ◌≡◌, refl, Bool, true, false, not, ◌||◌, Option, none, some, List, [], ◌∷◌, ◌++◌, arith, is_empty,
  if◌then◌else◌,
}
use kclpp.Outcome.{Outcome, success, failure}
use kclpp.ShardIterator.{ShardIterator, GetRecordsResult, on_records}
use kclpp.Consumer.{
  ShardConsumer, processing, shutdown_complete, can_read, Phase, idle, awaiting_processor,
  awaiting_batch, awaiting_records, posted, Event, Call, Step, step, on_processor, on_batch,
  on_records_processed, on_request_shutdown, process_batches, on_batch_done, on_processing_stop,
  on_shutdown, after_processor, request_shutdown, processor_initialized, batch_read,
  records_processed, event_thread_runs, shutdown_told, ShardConsumerError, on_start_initializing,
  on_checkpoint, on_iterator, on_start_processing,
}
use kclpp.Consumer.Phases.{Reaches, here, further}

-- The phases in which batches are read.
abbrev pub is_reading : Phase → Bool
is_reading awaiting_batch = true
is_reading (awaiting_records n) = true
is_reading posted = true
is_reading _ = false

abbrev Batch : Type 0
Batch = Outcome GetRecordsResult ShardConsumerError

abbrev Processed : Type 0
Processed = Outcome (Unit {0}) ShardConsumerError

-- The step that a consumer takes on the answer that it waits for, of these two.
abbrev pub answer : Batch → Processed → ShardConsumer → Step
answer b p c = elim c.phase [
  | awaiting_batch ↦ step (batch_read b) c
  | awaiting_records n ↦ step (records_processed p) c
  | posted ↦ step event_thread_runs c
  | _ ↦ some ([], c)
]

-- Two steps in a row, with the calls of both.
abbrev pub and_after : Step → (ShardConsumer → Step) → Step
and_after none f = none
and_after (some (calls, c)) f = elim (f c) [
  | none ↦ none
  | some (more, c') ↦ some (calls ++ more, c')
]

-- The outcome that the requester is told, and the iterator that is left.
abbrev told_of : Phase → Bool → Batch → Processed → Outcome (Unit {0}) ShardConsumerError
told_of awaiting_batch calls (failure e) p = failure e
told_of awaiting_batch calls (success r) p =
    if not (is_empty r.records) || calls then p else success tt
told_of (awaiting_records n) calls b p = p
told_of _ calls b p = success tt

abbrev left_iterator : Phase → Batch → Option ShardIterator → Option ShardIterator
left_iterator awaiting_batch (success r) (some it) =
    some (on_records {E = ShardConsumerError} (success r) it)
left_iterator _ b it = it

abbrev shut_down : Phase → Batch → ShardConsumer → ShardConsumer
shut_down ph b c = record c {
  has_shutdown_callback = true;
  state_type = shutdown_complete;
  phase = idle;
  shard_iterator = left_iterator ph b c.shard_iterator;
}

-- A consumer that is processing, reads a batch and was not asked before to shut down does so when
-- it is asked: within the next two answers, whatever they are, it tells the requester exactly once
-- and has shut down, with nothing under way.
pub request_shutdown-completes :
    (c : ShardConsumer) (b : Batch) (p : Processed)
    → is_reading c.phase ≡ true
    → c.state_type ≡ processing
    → c.has_shutdown_callback ≡ false
    → (told : Outcome (Unit {0}) ShardConsumerError) × (c' : ShardConsumer) × (and_after
          (and_after (step request_shutdown c) (answer b p))
          (answer b p)
        ≡ some (shutdown_told told ∷ [], c'))
      × (c'.state_type ≡ shutdown_complete)
      × (c'.phase ≡ idle)
unfolding step on_batch on_records_processed on_request_shutdown process_batches on_batch_done
    on_processing_stop on_shutdown
request_shutdown-completes c b p r s n = (
  told_of c.phase c.params.call_process_records_if_empty b p,
  shut_down c.phase b c,
  ground arith,
  refl,
  refl,
)

-- Where a consumer is reading and no shutdown was requested, a batch that cannot be read, records
-- that cannot be processed, and a next round without a further position in the shard all end the
-- process.
pub processing-failures :
    (c : ShardConsumer) (e : ShardConsumerError)
    → c.state_type ≡ processing
    → is_reading c.phase ≡ true
    → (step (batch_read (failure e)) c ≡ none)
      × (step (records_processed (failure e)) c ≡ none)
      × (can_read c.shard_iterator ≡ false → step event_thread_runs c ≡ none)
unfolding step on_batch on_records_processed process_batches on_batch_done on_processing_stop
processing-failures c e s r = (ground arith, ground arith, λ h. ground arith)

-- A consumer that goes on processing though it was asked to shut down.
record IsDeaf (c : ShardConsumer) : Type 0 where
  state : c.state_type ≡ processing
  asked : c.has_shutdown_callback ≡ true
  reading : is_reading c.phase ≡ true

step-IsDeaf :
    (e : Event) (c c' : ShardConsumer) (calls : List Call)
    → IsDeaf c
    → step e c ≡ some (calls, c')
    → IsDeaf c'
unfolding step on_start_initializing on_checkpoint on_iterator on_start_processing on_processor
    on_batch on_records_processed on_request_shutdown process_batches on_batch_done
    on_processing_stop after_processor
step-IsDeaf e c c' calls h s = record {
  state = ground (arith, h.state, h.asked, h.reading);
  asked = ground (arith, h.state, h.asked, h.reading);
  reading = ground (arith, h.state, h.asked, h.reading);
}

Reaches-IsDeaf : (c c' : ShardConsumer) → IsDeaf c → Reaches c c' → IsDeaf c'
Reaches-IsDeaf c c' h here = h
Reaches-IsDeaf c c' h (further e r s) = step-IsDeaf e _ c' _ (Reaches-IsDeaf c _ h r) s

-- A request to shut down that comes while the record processor initializes is lost: once the
-- processor has initialized, the consumer processes batches, whatever comes, and never shuts down.
pub request_shutdown-lost :
    (c c' c'' end : ShardConsumer) (calls calls' : List Call)
    → c.phase ≡ awaiting_processor
    → step request_shutdown c ≡ some (calls, c')
    → step (processor_initialized (success tt)) c' ≡ some (calls', c'')
    → Reaches c'' end
    → end.state_type ≡ processing
unfolding step on_processor on_request_shutdown process_batches after_processor
request_shutdown-lost c c' c'' end calls calls' waiting asked started r =
    let deaf : IsDeaf c'' = record {
      state = ground (arith, waiting, asked, started);
      asked = ground (arith, waiting, asked, started);
      reading = ground (arith, waiting, asked, started);
    } in
    (Reaches-IsDeaf c'' end deaf r).state
