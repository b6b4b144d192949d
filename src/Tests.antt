-- ===== src/Tests.antt =====
-- The theorems at concrete inputs.
mod CmdLine
mod Partition
mod Table
mod Manager
mod Plugins
mod Backup
mod Gpt
mod UniqueFd
mod Detect
mod Silencer
