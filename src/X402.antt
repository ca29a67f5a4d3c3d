-- ===== src/X402.antt =====
-- x402iroh: paid HTTP requests whose payments are signed by endpoint keys.
pub mod Api
pub mod Scheme
pub mod Ledger
pub mod Wallet
mod Tests
