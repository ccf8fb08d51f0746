-- ===== src/Scheduler.antt =====
-- services/scheduler/standard/service.go: named jobs that run at a time, on a signal, or in a loop.
pub mod Job
pub mod Registry
