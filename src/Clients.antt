-- ===== src/Clients.antt =====
-- src/kclpp/dynamo/KCLDynamoClient.cpp and src/kclpp/kinesis/KCLKinesisClient.cpp: the clients of the two
-- services, whose methods answer in the event thread. The requests and outcomes of the client library are
-- types that the operations name, and the library's client is a function of each operation. The tasks of one
-- method share the pool with those of the others; a method names its own only.
pub mod Dynamo
pub mod Kinesis
use kclpp.Prelude.{ℕ, Option}
use kclpp.Async.EventFd.{Os}
use kclpp.Async.Queue.{Queue}
use kclpp.Async.Channel.{EventChannel}
use kclpp.Async.Task.{Task}
use kclpp.Async.Pool.{ThreadPool}

-- A method of a client, with what it reaches through its asynchronous context: the control channel of the
-- event thread `id`, and the queue of the pool.
module _ (K Q B K' Q' W : Type 0) where
  abbrev pub Method : Type 0 → Type 0 → Type 0
  Method Request Answer =
      Os K'
      → Queue (ThreadPool K Q B → ThreadPool K Q B) Q'
      → Queue (Task Answer W) B
      → ℕ
      → ℕ
      → Request
      → (Answer → W → W)
      → EventChannel K' Q'
      → Option (EventChannel K' Q')
