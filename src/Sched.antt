-- ===== src/Sched.antt =====
-- sched/: the policy that plans a tick, the cost estimate, and the scheduler.
pub mod Policy
pub mod Tests
pub mod Bmt
pub mod Guard
pub mod Backend
pub mod Batch
pub mod Results
pub mod Sampling
pub mod Scheduler
