-- ===== src/Examples.antt =====
-- Concrete databases and histories, on which the theorems are applied.
pub mod Fixtures
pub mod Coordination
pub mod Awareness
pub mod Sessions
pub mod Limits
pub mod Auditing
