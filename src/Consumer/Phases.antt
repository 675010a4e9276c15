-- ===== src/Consumer/Phases.antt =====
-- Which states of the consumer go with which phases.
use kclpp.Prelude.{
  ◌≡◌, refl, String, Bool, true, false, not, ◌&&◌, ◌||◌, Option, some, List, [], ◌∷◌, arith,
  has_value, is_empty,
}
use kclpp.Outcome.{success}
use kclpp.ShardIterator.{ShardIterator, on_records, create_new}
use kclpp.Leases.Sequence.{ExtendedSequenceNumber}
use kclpp.Consumer.{
  ShardConsumer, ShardConsumerParams, ShardConsumerStateType, initializing, ready_for_processing,
  iterator_request, initializing_told, shutdown_requested, shutdown_complete, is_processing,
  is_ready, is_shutdown_requested, can_read, Phase, idle, awaiting_checkpoint, awaiting_iterator,
  awaiting_processor, awaiting_batch, awaiting_records, posted, Event, Call, step,
  on_start_initializing, on_checkpoint, on_iterator, on_start_processing, on_processor, on_batch,
  on_records_processed, on_request_shutdown, process_batches, on_batch_done, on_processing_stop,
  on_shutdown, after_processor, new_consumer, start_initializing, checkpoint_read, iterator_read,
}

abbrev pub is_initializing : ShardConsumerStateType → Bool
is_initializing initializing = true
is_initializing _ = false

abbrev pub is_shut_down : ShardConsumerStateType → Bool
is_shut_down shutdown_requested = true
is_shut_down shutdown_complete = true
is_shut_down _ = false

-- The state of a consumer that waits in a phase, and its iterator.
abbrev pub agrees : Phase → ShardConsumerStateType → Option ShardIterator → Bool
agrees idle t it = not (is_processing t) && (not (is_ready t) || can_read it)
agrees awaiting_checkpoint t it =
    (is_initializing t || is_shutdown_requested t) && not (has_value it)
agrees (awaiting_iterator r) t it =
    (is_initializing t || is_shutdown_requested t) && not (has_value it)
agrees awaiting_processor t it = (is_ready t || is_shutdown_requested t) && can_read it
agrees awaiting_batch t it = (is_processing t || is_shutdown_requested t) && can_read it
agrees (awaiting_records n) t it = (is_processing t || is_shutdown_requested t) && has_value it
agrees posted t it = (is_processing t || is_shutdown_requested t) && has_value it

-- The phase fits the state, and a consumer that shuts down knows whom to tell.
pub record IsSound (c : ShardConsumer) : Type 0 where
  pub fits : agrees c.phase c.state_type c.shard_iterator ≡ true
  pub told : (not (is_shut_down c.state_type) || c.has_shutdown_callback) ≡ true

-- The consumers that a consumer comes to by steps.
pub data Reaches (c : ShardConsumer) : ShardConsumer → Type 0 where
  here : Reaches c c
  further :
      {c' c'' : ShardConsumer} {calls : List Call} (e : Event)
      → Reaches c c'
      → step e c' ≡ some (calls, c'')
      → Reaches c c''

step-IsSound :
    (e : Event) (c c' : ShardConsumer) (calls : List Call)
    → IsSound c
    → step e c ≡ some (calls, c')
    → IsSound c'
unfolding step on_start_initializing on_checkpoint on_iterator on_start_processing on_processor
    on_batch on_records_processed on_request_shutdown process_batches on_batch_done
    on_processing_stop on_shutdown after_processor on_records
step-IsSound e c c' calls h s = record {
  fits = ground (arith, h.fits, h.told);
  told = ground (arith, h.fits, h.told);
}

-- Every consumer that is reached from a new one is sound: its state fits what it waits for. So one
-- that is processing always has a request under way or its next round posted, and has an iterator.
pub Reaches-IsSound :
    (params : ShardConsumerParams) (c : ShardConsumer) → Reaches (new_consumer params) c → IsSound c
unfolding new_consumer
Reaches-IsSound params c here = record { fits = refl; told = refl }
Reaches-IsSound params c (further e r s) = step-IsSound e _ c _ (Reaches-IsSound params _ r) s

-- A new consumer of a shard without parents, when it is initialized, asks for an iterator after
-- the stored checkpoint, or from the configured position where there is none, and with the
-- iterator that it gets it is ready and says so once.
pub initialization :
    (params : ShardConsumerParams) (n : Option ExtendedSequenceNumber) (id : String)
    → is_empty params.parent_shard_ids ≡ true
    → (c c' c'' : ShardConsumer) × (step start_initializing (new_consumer params) ≡ some ([], c))
      × (step (checkpoint_read (success n)) c ≡ some ([], c'))
      × (c'.phase ≡ awaiting_iterator (iterator_request params.initial_position n))
      × (step (iterator_read (success id)) c' ≡ some (initializing_told (success tt) ∷ [], c''))
      × (is_ready c''.state_type ≡ true)
      × (c''.shard_iterator ≡ some (create_new id))
unfolding new_consumer step on_start_initializing on_checkpoint on_iterator
initialization params n id h =
    let c = record (new_consumer params) {
      state_type = initializing;
      phase = awaiting_checkpoint;
    } in
    let c' = record c { phase = awaiting_iterator (iterator_request params.initial_position n) } in
    let c'' = record c' {
      shard_iterator = some (create_new id);
      state_type = ready_for_processing;
      phase = idle;
    } in
    (c, c', c'', rw (h, step) refl, refl, refl, refl, refl, refl)
