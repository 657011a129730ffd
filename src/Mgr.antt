-- ===== src/Mgr.antt =====
-- base/mgr: jobs, their queue, and the manager that runs them.
pub mod Queue
pub mod Manager
pub mod Job
pub mod Backoff
pub mod WaitMachine
pub mod Slice
pub mod Stats
pub mod Arguments
