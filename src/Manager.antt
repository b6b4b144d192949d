-- ===== src/Manager.antt =====
-- The program itself: its plugins, and what they make of their arguments
-- (include/PartitionManager/Plugin.hpp).
pub mod Inputs
pub mod Plugins
pub mod Main
