-- ===== src/Fleet.antt =====
-- core/fleet: providers of remote hosts.
pub mod Weight
pub mod Orchestrator
mod Tests
