-- ===== src/Lan.antt =====
-- lovensepy/standard: the patterns that the clients of the local app build.
pub mod Pattern
pub mod Digits
pub mod ReadBack
pub mod Pinned
mod Tests
