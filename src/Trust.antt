-- ===== src/Trust.antt =====
-- Execution trust binding.
pub mod Binding
pub mod Verdict
pub mod Checks
pub mod Steps
pub mod Clean
pub mod Lineage
pub mod Evaluate
pub mod Tests
