-- ===== src/Async.antt =====
-- include/kclpp/async and src/kclpp/async: the event thread, its channels, and the pool of worker
-- threads that runs blocking calls.
pub mod Descriptor
pub mod EventFd
pub mod Queue
pub mod Channel
pub mod Task
pub mod Worker
pub mod Pool
pub mod Delivery
pub mod Event
pub mod Context
pub mod Call
