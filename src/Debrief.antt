-- ===== src/Debrief.antt =====
-- The daily debriefs under src/aios_tools/experimental: their finding events, and the store of them.
pub mod Event
pub mod Store
