-- ===== src/LogStore.antt =====
-- executors/logstore.py and the part of app/request.py that reports to it.
pub mod Server
pub mod Response
pub mod Jobs
pub mod Store
pub mod Invariant
pub mod History
mod Tests
