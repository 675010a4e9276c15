-- ===== src/Leases.antt =====
-- The lease subsystem: include/kclpp/leases and src/kclpp/leases.
pub mod Sequence
pub mod Lease
pub mod Codec
pub mod Taker
pub mod Dynamo
pub mod Helpers
pub mod Manager
pub mod Renewer
pub mod Coordinator
pub mod Checkpointer
pub mod Cluster
