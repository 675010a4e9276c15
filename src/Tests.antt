-- ===== src/Tests.antt =====
-- Runs of the modelled code at concrete inputs.
mod World
mod Manager
mod Taker
mod Renewer
mod Coordinator
mod Consumer
mod Wheel
mod Async
mod Channels
mod Pools
mod Handles
mod Cluster
mod Timers
