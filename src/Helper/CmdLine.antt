-- ===== src/Helper/CmdLine.antt =====
-- srclib/libhelper/include/libhelper/cmdline.hpp, by parts.
pub mod Split
pub mod Number
pub mod Size
pub mod Convert
pub mod Option
pub mod Group
pub mod World
pub mod Loop
pub mod Settle
pub mod Parse
