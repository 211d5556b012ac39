-- ===== src/Mobile.antt =====
-- The React Native client, mobile/src.
pub mod Protocol
pub mod Address
pub mod Queue
pub mod WsClient
pub mod App
pub mod Gps
pub mod Screen
