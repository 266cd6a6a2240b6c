-- ===== src/Fixture.antt =====
-- core/fixture: the variable store of a test.
pub mod Interpolate
mod Tests
