-- ===== src/Pool.antt =====
-- poolserver: the client that hands requests to workers, the workers, the pool that restarts them
-- and the supervisor that kills the stalled ones.
pub mod Client
pub mod Supervisor
pub mod Workers
pub mod Worker
mod Tests
