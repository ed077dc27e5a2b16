-- ===== src/Executor.antt =====
-- executors/processingexecutor.py: the life of a job, from its request to its removal.
pub mod Report
pub mod Run
pub mod Outcome
pub mod Cleanup
pub mod Expiry
pub mod Processes
mod Tests
