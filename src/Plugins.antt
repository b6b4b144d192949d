-- ===== src/Plugins.antt =====
-- src/plugins: the plugins that work on partitions and on partition tables.
pub mod Work
pub mod Flash
pub mod Backup
pub mod Erase
pub mod Gpt
pub mod Listing
pub mod Detect
