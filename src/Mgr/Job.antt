-- ===== src/Mgr/Job.antt =====
-- base/mgr/job.go: one job, from its runs to its end.
pub mod Run
pub mod Restart
pub mod Signals
