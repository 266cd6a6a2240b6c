-- ===== src/Telemetry.antt =====
-- core/telemetry: records of test events in a binary log.
pub mod Types
pub mod Action
pub mod Wire
pub mod Tags
pub mod Codec
pub mod Stream
mod Tests
