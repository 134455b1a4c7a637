-- ===== src/Deciders.antt =====
-- The decision functions under src/aios_tools/experimental.
pub mod Retry
pub mod NextAction
pub mod Completion
pub mod Fallback
pub mod Skills
pub mod Gates
pub mod Continuation
