-- ===== src/Mqtt.antt =====
-- lovensepy/integrations/mqtt: the bridge to Home Assistant over MQTT.
pub mod Topics
pub mod Parts
pub mod Payloads
pub mod Strength
pub mod Discovery
pub mod Bridge
pub mod Commands
pub mod Events
pub mod Levels
pub mod Keeping
pub mod Applied
pub mod Refused
pub mod Overlap
pub mod Silent
pub mod Stale
pub mod Off
pub mod Stopped
pub mod Bounds
mod Tests
