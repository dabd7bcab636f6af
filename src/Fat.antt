-- ===== src/Fat.antt =====
-- The FAT driver, kernel/fat.c.
pub mod Volume
pub mod Table
pub mod Entries
pub mod Chain
pub mod File
pub mod Write
pub mod LongName
pub mod Xattr
pub mod Descriptors
