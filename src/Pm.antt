-- ===== src/Pm.antt =====
-- base/pm: the values that the process manager and its clients exchange.
pub mod Command
pub mod Result
pub mod Failure
pub mod Hook
