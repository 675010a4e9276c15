-- ===== src/Lib.antt =====
-- kclpp: a client library for reading Kinesis streams with several workers. The workers share a
-- table of leases in DynamoDB, one lease for a shard.
--
-- The parts, and the files that model them:
-- - `Prelude`, with its children: tests, lists, sums, chains of options, and `Prelude/Dict`,
--   `std::map` with the helpers of include/kclpp/util/util.h. `Outcome`: a result or an error.
-- - `Util`: `safeStrToUll` of src/kclpp/util/util.cpp over a model of `strtoull` and `errno`.
-- - `AsyncGroup`: src/kclpp/AsyncGroup.cpp, which elects the callback that finishes a request.
-- - `Leases/Sequence`, `Leases/Lease`, `Leases/Codec`: src/kclpp/leases/ExtendedSequenceNumber.cpp
--   and Lease.cpp, the data of a lease, its expiry, and its form in the table.
-- - `Leases/Dynamo`: what is used of DynamoDB, as a record of operations, with the documented
--   behaviour of conditional updates as a record of hypotheses.
-- - `Leases/Helpers`, `Leases/Manager` with `Leases/Manager/Tables`: dynamo_helpers.cpp and
--   LeaseManager.cpp, one request each.
-- - `Leases/Taker` (`update_all_leases`, `compute_leases_to_take`) and `Leases/Taker/Taking`
--   (`take_leases`): LeaseTaker.cpp.
-- - `Leases/Renewer`, `Leases/Coordinator`, `Leases/Checkpointer`: the files of the same names. The
--   coordinator runs the taker and the renewer; the checkpointer goes through the coordinator.
-- - `Leases/Cluster`: several workers over one table, as a step relation.
-- - `ShardIterator`, `Consumer`: src/kclpp/kinesis/ShardIterator.cpp and
--   src/kclpp/clientlib/worker/ShardConsumer.cpp, the state machine that reads one shard.
-- - `Wheel`: include/kclpp/async/wheel, the timer wheel's rings, buckets, levels, ticks and timers.
-- - `Async`: include/kclpp/async with its queues and tpool, and src/kclpp/async. `Async/Descriptor`
--   and `Async/EventFd`: the counter that wakes the event thread, over `read` and `write` of the
--   operating system. `Async/Queue`: what is used of the vendored queues. `Async/Channel`: both event
--   channels and the loops that drain them. `Async/Context`, with `Async/Context/Setup`:
--   EventContext.cpp and KCLAsyncContext.cpp.
--   `Async/Task`, `Async/Worker`, `Async/Pool`: the thread pool. `Async/Delivery`: the pool, its
--   workers and the event thread as a step relation. `Async/Call`: the body of every client method.
--   `Async/Event`: BaseEvent.h, SignalEvent.h, CallbackEvent.cpp, TimerEvent.cpp and
--   SignalHandlerRegistry.cpp.
-- - `Clients`: src/kclpp/dynamo/KCLDynamoClient.cpp and src/kclpp/kinesis/KCLKinesisClient.cpp.
-- - `ClientWorker`: include/kclpp/clientlib/worker/Worker.h and WorkerState.h.
-- - `Guards`: UniqueToken.cpp, ScopeGuard.cpp, APIGuard.cpp, TimerSettings.cpp, async/JustOnce.cpp and
--   the flag of locks/ThreadBaton.cpp of src/kclpp.
-- - `Locks`: include/kclpp/locks/Synchronized.h.
-- - `Tests`: runs at concrete inputs, with a service that keeps one table.
--
-- How the code is read. The code works by callbacks that run in one event thread. A method that
-- sends one request is a function from the state of the service to the outcome that its callback
-- gets and the new state. A method that sends several has them answered in the order in which they
-- are sent; the calls of its own callback are collected in a list, so that it shows how often it
-- is called; `Leases/Taker/Replies` takes the answers in any order. The consumer keeps what it
-- waits for in its state and takes each answer as an event.
-- Workers meet at the table: `Leases/Cluster` takes their requests as steps in any order. A lease that a
-- worker has taken is added to its renewer in the step of the take. A write that is answered by an error
-- may have been applied or not.
-- Threads meet in two places. `Async/Channel/Wakeup` takes the atomic operations of a producer and of
-- the event thread as steps in any order; `Async/Delivery` takes a submission, a round of a worker
-- and a drain as one step each, in any order. The work of a control message may send on the
-- channel that is drained. A thread whose round never returns is `hanging`. A call that does not return is `blocks`, one that ends
-- the process is `aborts`. The queues, the eventfd and the client library are records of operations,
-- and their documented behaviour is a record of hypotheses.
-- The clock is an argument of a call that reads it, the random shuffle a parameter, and `errno` a
-- Boolean that is passed on. A `CHECK` or `DCHECK` that fails, and an exception, give none.
--
-- Bounds and fuel. A `size_t` is a number below 2 ^ 64 and wraps where the code adds or subtracts
-- such numbers; counts of leases and slots stay below it. The loop of `getSlotIdx` runs on fuel, one
-- more than the delay, which its closed form shows to be enough. The drains of the channels run on
-- fuel, for which one more than the weight of the messages is enough, where each weighs more than all
-- that its work sends; the loop of a worker does, for which twenty
-- rounds after its stop are enough; and so does the worker's processing loop, whose fuel is the depth
-- of its calls. All else is structural recursion.
--
-- Not modelled: the AWS library, libevent with the loops of EvBase.cpp, and the vendored queues;
-- clocks and spin locks; the waiting on a condition variable of ThreadBaton.cpp, since it depends on the
-- scheduler; printing and logging, the demo in src/main.cpp, and the tests of the repository.
pub mod Prelude
pub mod Outcome
pub mod Util
pub mod AsyncGroup
pub mod Leases
pub mod Locks
pub mod ShardIterator
pub mod Consumer
pub mod Wheel
pub mod Async
pub mod Clients
pub mod ClientWorker
pub mod Guards
pub mod Tests
