-- ===== src/Helper.antt =====
-- libhelper: errors, the command line, asynchronous jobs and output silencing.
pub mod Error
pub mod Async
pub mod Prompt
pub mod UniqueFd
pub mod Silencer
pub mod Sha256
pub mod CmdLine
