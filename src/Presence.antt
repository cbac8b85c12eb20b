-- ===== src/Presence.antt =====
-- lovensepy/services/http_api/presence.py: the browsers that have the control panel open.
pub mod Hub
pub mod Views
pub mod Private
pub mod Keyed
mod Tests
