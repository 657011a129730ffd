-- ===== src/Utils.antt =====
-- base/utils: what the other packages share.
pub mod Kernel
pub mod Format
pub mod Levels
