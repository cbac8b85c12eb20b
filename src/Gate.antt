-- ===== src/Gate.antt =====
-- lovensepy/services/http_api/access_gate.py: the gate for visitors from outside the local network.
pub mod Types
pub mod Challenge
pub mod Sessions
pub mod Approvals
pub mod Labels
mod Tests
pub mod Entry
pub mod Claims
pub mod Shut
pub mod Allowed
pub mod Grants
pub mod Runs
pub mod Events
pub mod Invariant
pub mod Cookies
pub mod Codes
pub mod Guesses
pub mod Visitors
pub mod Middleware
pub mod Routes
pub mod Decisions
