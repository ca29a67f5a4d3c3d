-- ===== src/Discovery.antt =====
-- contentdiscovery: a tracker of signed announces.
pub mod Api
pub mod Protocol
pub mod Store
pub mod Tracker
mod Tests
