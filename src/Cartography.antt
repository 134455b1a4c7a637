-- ===== src/Cartography.antt =====
-- src/aios_tools/cartography: the graph that maps are made from.
pub mod Graph
