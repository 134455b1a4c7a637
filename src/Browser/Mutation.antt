-- ===== src/Browser/Mutation.antt =====
-- src/aios_tools/browser/mutation.py: grants of remote mutations and the ledger of reservations.
pub mod Approval
pub mod Reservations
