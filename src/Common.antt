-- ===== src/Common.antt =====
-- common/: what the crates share.
pub mod BandWidth
pub mod SignalFuture
pub mod Compress
pub mod Crypto
pub mod Errors
pub mod Log
pub mod Time
pub mod Http
