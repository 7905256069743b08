-- ===== src/Multitask.antt =====
-- kernel/core/multitask: processes, threads and the scheduler.
pub mod Table
pub mod Task
pub mod Thread
pub mod Scheduler
