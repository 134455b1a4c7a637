-- ===== src/Governance.antt =====
-- src/aios_tools/config.py and src/aios_tools/runner.py: the governed configuration, and the gates
-- between a request and the handler of its tool.
pub mod Registry
pub mod Policy
pub mod Runner
