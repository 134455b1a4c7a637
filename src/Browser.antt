-- ===== src/Browser.antt =====
-- src/aios_tools/browser: the session leases, budgets, mutation approvals and user takeovers of the
-- browser runtime.
pub mod Leases
pub mod Budget
pub mod Origin
pub mod Mutation
pub mod Policy
pub mod Capture
pub mod Effects
