-- ===== src/Web.antt =====
-- The browser dashboard, client/.
pub mod Socket
pub mod Geo
pub mod Blend
pub mod Gps
pub mod Roadview
pub mod Page
pub mod Map
pub mod Auth
pub mod Startup
pub mod Panel
pub mod Dashboard
pub mod Charts
pub mod Offline
pub mod Address
pub mod Theme
pub mod Layout
