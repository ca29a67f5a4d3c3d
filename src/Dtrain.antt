-- ===== src/Dtrain.antt =====
-- dtrain/group.go: ranked training groups over gossip, and their collectives over streams.
pub mod Api
pub mod Frame
pub mod Group
pub mod Events
pub mod Exchange
pub mod Collective
pub mod Handler
mod Tests
