-- ===== src/Enclave.antt =====
-- enclaveiroh: claims of code identity, bound to a connection, the policy over them, and the peers known so far.
pub mod Claim
pub mod KnownPeers
pub mod Policy
pub mod Messages
pub mod Handshake
mod Tests
