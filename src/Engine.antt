-- ===== src/Engine.antt =====
-- core/engine: running the tests of a suite.
pub mod Dispatcher
pub mod Loop
pub mod Pool
pub mod Runner
pub mod Suite
pub mod Execution
pub mod Concurrent
mod Tests
