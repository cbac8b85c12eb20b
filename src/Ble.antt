-- ===== src/Ble.antt =====
-- Direct Bluetooth: lovensepy/ble_direct. The lines written to a toy, the link to one toy, the registry
-- of toys, and the keeper of the links.
pub mod Wire
pub mod Link
pub mod Play
pub mod Clear
pub mod Pair
pub mod Tracks
pub mod Lost
pub mod Silence
pub mod Attempts
pub mod Supervisor
pub mod Registry
pub mod Hub
pub mod Halt
pub mod HubStop
pub mod Replaced
pub mod Scheduled
pub mod Backoff
pub mod Keeping
pub mod Wedged
pub mod Replies
pub mod Battery
mod Tests
