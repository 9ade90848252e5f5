-- ===== src/Fat.antt =====
-- agentos-kernel/src/fat_common.rs, fat12.rs, rtc.rs: directory entries, names and the file table.
pub mod Text
pub mod Common
pub mod Entries
pub mod Table
pub mod Chain
pub mod Directory
pub mod Files
pub mod Fat32
mod Samples
pub mod Datetime
pub mod Volume
