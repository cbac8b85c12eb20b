-- ===== src/Scheduler.antt =====
-- lovensepy/services/http_api/scheduler.py: holds of one feature of one toy, merged into the calls of
-- the control backend.
pub mod Types
pub mod Snapshot
pub mod Slots
pub mod Holds
pub mod Sessions
pub mod Service
pub mod Valid
pub mod Timed
pub mod Runs
pub mod Motors
pub mod Rest
pub mod Merge
pub mod Still
pub mod Steps
pub mod Quiet
mod Tests
