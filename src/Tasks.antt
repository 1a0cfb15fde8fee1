-- ===== src/Tasks.antt =====
-- kernel/tasks: threads, what they wait for, and the scheduler.
pub mod Outcome
pub mod Thread
pub mod Blockers
pub mod Scheduler
