-- ===== src/Clients/Kinesis.antt =====
-- src/kclpp/kinesis/KCLKinesisClient.cpp.
use kclpp.Prelude.{ℕ, String, Option, List}
use kclpp.Outcome.{Outcome, success, failure}
use kclpp.Async.EventFd.{Os}
use kclpp.Async.Queue.{Queue}
use kclpp.Async.Channel.{EventChannel}
use kclpp.Async.Task.{Task}
use kclpp.Async.Pool.{ThreadPool}
use kclpp.Async.Call.{call_async}
use kclpp.Clients.{Method}

pub data KinesisOperation : Type 0 where
  list_streams describe_stream get_shard_iterator get_records create_stream delete_stream put_record
        put_records :
      KinesisOperation

module _ {K Q B K' Q' W : Type 0} {Request Answer : KinesisOperation → Type 0}
    (invoke : (o : KinesisOperation) → Request o → W → Answer o × W)
    (default_answer : (o : KinesisOperation) → Answer o) where
  -- `listStreamsAsync`
  unfoldable pub list_streams_async :
      Method K Q B K' Q' W (Request list_streams) (Answer list_streams)
  unfolding call_async
  list_streams_async os control tasks id ctx =
      call_async (invoke list_streams) os control tasks id ctx (default_answer list_streams)

  -- `describeStreamAsync`
  unfoldable pub describe_stream_async :
      Method K Q B K' Q' W (Request describe_stream) (Answer describe_stream)
  unfolding call_async
  describe_stream_async os control tasks id ctx =
      call_async (invoke describe_stream) os control tasks id ctx (default_answer describe_stream)

  -- `getRecordsAsync`
  unfoldable pub get_records_async : Method K Q B K' Q' W (Request get_records) (Answer get_records)
  unfolding call_async
  get_records_async os control tasks id ctx =
      call_async (invoke get_records) os control tasks id ctx (default_answer get_records)

  -- `createStreamAsync`
  unfoldable pub create_stream_async :
      Method K Q B K' Q' W (Request create_stream) (Answer create_stream)
  unfolding call_async
  create_stream_async os control tasks id ctx =
      call_async (invoke create_stream) os control tasks id ctx (default_answer create_stream)

  -- `deleteStreamAsync`
  unfoldable pub delete_stream_async :
      Method K Q B K' Q' W (Request delete_stream) (Answer delete_stream)
  unfolding call_async
  delete_stream_async os control tasks id ctx =
      call_async (invoke delete_stream) os control tasks id ctx (default_answer delete_stream)

  -- `putRecordAsync`
  unfoldable pub put_record_async : Method K Q B K' Q' W (Request put_record) (Answer put_record)
  unfolding call_async
  put_record_async os control tasks id ctx =
      call_async (invoke put_record) os control tasks id ctx (default_answer put_record)

  -- `putRecordsAsync`
  unfoldable pub put_records_async : Method K Q B K' Q' W (Request put_records) (Answer put_records)
  unfolding call_async
  put_records_async os control tasks id ctx =
      call_async (invoke put_records) os control tasks id ctx (default_answer put_records)

pub record GetShardIteratorRequest (I : Type 0) : Type 0 where
  pub stream_name : String
  pub shard_id : String
  pub iterator_type : I

pub record ShardIteratorProperties (I : Type 0) : Type 0 where
  pub stream_name : String
  pub shard_id : String
  pub iterator_type : I

pub record ShardIteratorDescription (I : Type 0) : Type 0 where
  pub iterator_id : String
  pub properties : ShardIteratorProperties I

module _ {I E : Type 0} where
  -- what the worker thread stores in `outcomePtr`
  unfoldable pub describe_iterator :
      GetShardIteratorRequest I → Outcome String E → Outcome (ShardIteratorDescription I) E
  describe_iterator request (failure e) = failure e
  describe_iterator request (success id) = success (record {
    iterator_id = id;
    properties = record {
      stream_name = request.stream_name;
      shard_id = request.shard_id;
      iterator_type = request.iterator_type;
    };
  })

  unfoldable pub invoke_described :
      {W : Type 0}
      → (GetShardIteratorRequest I → W → Outcome String E × W)
      → GetShardIteratorRequest I
      → W
      → Outcome (ShardIteratorDescription I) E × W
  unfolding describe_iterator
  invoke_described invoke request w =
      let (outcome, w') = invoke request w in (describe_iterator request outcome, w')

  module _ {K Q B K' Q' W : Type 0} (invoke : GetShardIteratorRequest I → W → Outcome String E × W)
      (default_answer : Outcome (ShardIteratorDescription I) E) where
    -- `getShardIteratorAsync`
    unfoldable pub get_shard_iterator_async :
        Method K Q B K' Q' W (GetShardIteratorRequest I) (Outcome (ShardIteratorDescription I) E)
    unfolding call_async invoke_described
    get_shard_iterator_async os control tasks id ctx =
        call_async (invoke_described invoke) os control tasks id ctx default_answer

module _ {Shard Description E : Type 0} (get_shards : Description → List Shard) where
  -- the callback of `describeStreamAsync` in `listShardsAsync`
  unfoldable pub listed_shards : Outcome Description E → Outcome (List Shard) E
  listed_shards (failure e) = failure e
  listed_shards (success d) = success (get_shards d)

  module _ {K Q B K' Q' W : Type 0} (invoke : String → W → Outcome Description E × W)
      (default_answer : Outcome Description E) where
    -- `listShardsAsync`, through `describeStreamAsync`
    unfoldable pub list_shards_async :
        Os K'
        → Queue (ThreadPool K Q B → ThreadPool K Q B) Q'
        → Queue (Task (Outcome Description E) W) B
        → ℕ
        → ℕ
        → String
        → (Outcome (List Shard) E → W → W)
        → EventChannel K' Q'
        → Option (EventChannel K' Q')
    unfolding listed_shards call_async
    list_shards_async os control tasks id ctx stream_name callback =
        call_async invoke os control tasks id ctx default_answer stream_name
          (λ outcome. callback (listed_shards outcome))
