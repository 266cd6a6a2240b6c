-- ===== src/Schema.antt =====
-- The configuration of core/schema: its types, of test.go and config.go, and its validation.
pub mod Types
pub mod Validate
mod Tests
