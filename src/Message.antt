-- ===== src/Message.antt =====
-- The package `message`: the data limiter with its persistent state, and the merger of streams.
pub mod Persistor
pub mod Limiter
