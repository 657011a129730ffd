-- ===== src/Settings.antt =====
-- base/settings: what the configuration says, the order of the startup services, and the
-- conditions under which they run.
pub mod Startup
pub mod Include
pub mod Tree
pub mod Condition
