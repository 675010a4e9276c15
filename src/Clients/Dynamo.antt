-- ===== src/Clients/Dynamo.antt =====
-- src/kclpp/dynamo/KCLDynamoClient.cpp.
use kclpp.Prelude.{ℕ, String, Bool, true, false, Option, if◌then◌else◌}
use kclpp.Outcome.{Outcome, success, failure}
use kclpp.Async.EventFd.{Os}
use kclpp.Async.Queue.{Queue}
use kclpp.Async.Channel.{EventChannel}
use kclpp.Async.Task.{Task}
use kclpp.Async.Pool.{ThreadPool}
use kclpp.Async.Call.{call_async}
use kclpp.Clients.{Method}

pub data DynamoOperation : Type 0 where
  get_item put_item update_item delete_item scan create_table list_tables delete_table
        describe_table :
      DynamoOperation

module _ {K Q B K' Q' W : Type 0} {Request Answer : DynamoOperation → Type 0}
    (invoke : (o : DynamoOperation) → Request o → W → Answer o × W)
    (default_answer : (o : DynamoOperation) → Answer o) where
  -- `getItemAsync`
  unfoldable pub get_item_async : Method K Q B K' Q' W (Request get_item) (Answer get_item)
  unfolding call_async
  get_item_async os control tasks id ctx =
      call_async (invoke get_item) os control tasks id ctx (default_answer get_item)

  -- `putItemAsync`
  unfoldable pub put_item_async : Method K Q B K' Q' W (Request put_item) (Answer put_item)
  unfolding call_async
  put_item_async os control tasks id ctx =
      call_async (invoke put_item) os control tasks id ctx (default_answer put_item)

  -- `updateItemAsync`
  unfoldable pub update_item_async : Method K Q B K' Q' W (Request update_item) (Answer update_item)
  unfolding call_async
  update_item_async os control tasks id ctx =
      call_async (invoke update_item) os control tasks id ctx (default_answer update_item)

  -- `deleteItemAsync`
  unfoldable pub delete_item_async : Method K Q B K' Q' W (Request delete_item) (Answer delete_item)
  unfolding call_async
  delete_item_async os control tasks id ctx =
      call_async (invoke delete_item) os control tasks id ctx (default_answer delete_item)

  -- `scanAsync`
  unfoldable pub scan_async : Method K Q B K' Q' W (Request scan) (Answer scan)
  unfolding call_async
  scan_async os control tasks id ctx =
      call_async (invoke scan) os control tasks id ctx (default_answer scan)

  -- `createTableAsync`
  unfoldable pub create_table_async :
      Method K Q B K' Q' W (Request create_table) (Answer create_table)
  unfolding call_async
  create_table_async os control tasks id ctx =
      call_async (invoke create_table) os control tasks id ctx (default_answer create_table)

  -- `listTablesAsync`
  unfoldable pub list_tables_async : Method K Q B K' Q' W (Request list_tables) (Answer list_tables)
  unfolding call_async
  list_tables_async os control tasks id ctx =
      call_async (invoke list_tables) os control tasks id ctx (default_answer list_tables)

  -- `deleteTableAsync`
  unfoldable pub delete_table_async :
      Method K Q B K' Q' W (Request delete_table) (Answer delete_table)
  unfolding call_async
  delete_table_async os control tasks id ctx =
      call_async (invoke delete_table) os control tasks id ctx (default_answer delete_table)

  -- `describeTableAsync`
  unfoldable pub describe_table_async :
      Method K Q B K' Q' W (Request describe_table) (Answer describe_table)
  unfolding call_async
  describe_table_async os control tasks id ctx =
      call_async (invoke describe_table) os control tasks id ctx (default_answer describe_table)

module _ {Description E : Type 0} (is_not_found : E → Bool) where
  -- the callback of `describeTableAsync` in `doesTableExistAsync`; the answer is `result.exists`
  unfoldable pub does_table_exist : Outcome Description E → Outcome Bool E
  does_table_exist (success d) = success true
  does_table_exist (failure e) = if is_not_found e then success false else failure e

  module _ {K Q B K' Q' W Request : Type 0} (invoke : Request → W → Outcome Description E × W)
      (default_answer : Outcome Description E) (with_table_name : String → Request) where
    -- `doesTableExistAsync`, through `describeTableAsync`
    unfoldable pub does_table_exist_async :
        Os K'
        → Queue (ThreadPool K Q B → ThreadPool K Q B) Q'
        → Queue (Task (Outcome Description E) W) B
        → ℕ
        → ℕ
        → String
        → (Outcome Bool E → W → W)
        → EventChannel K' Q'
        → Option (EventChannel K' Q')
    unfolding does_table_exist call_async
    does_table_exist_async os control tasks id ctx name callback =
        call_async invoke os control tasks id ctx default_answer (with_table_name name)
          (λ outcome. callback (does_table_exist outcome))
