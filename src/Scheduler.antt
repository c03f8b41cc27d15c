-- ===== src/Scheduler.antt =====
-- crates/roos-scheduler: persisted cron and one-shot tasks with retries.
pub mod Task
pub mod Delay
pub mod Backend
pub mod Store
pub mod Lifecycle
