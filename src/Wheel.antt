-- ===== src/Wheel.antt =====
-- include/kclpp/async/wheel: the hierarchical timer wheel. Times and delays are counts of
-- milliseconds; a duration that would be negative does not occur in the modelled calls.
pub mod Buffer
pub mod Bucket
pub mod Levels
pub mod Tick
pub mod Timers
pub mod Fixed
