-- ===== src/Dagsync.antt =====
-- dagsync: transfer of an IPLD graph whose blocks are blobs.
pub mod Api
pub mod Protocol
pub mod Tables
pub mod Traversal
pub mod Sync
mod Tests
