-- ===== src/Hyperion.antt =====
-- hyperion_stream: a binary protocol, a write-ahead log, a sharded store and its TCP server.
pub mod Text
pub mod Telemetry
pub mod Protocol
pub mod Wal
pub mod Engine
pub mod Server
mod Tests
