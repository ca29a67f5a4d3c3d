-- ===== src/Stores.antt =====
-- xetstore/store.go and s3baostore/store.go: blob stores whose data stays behind HTTP.
pub mod Http
pub mod Texts
pub mod Xet
pub mod S3
pub mod Reads
pub mod Imports
pub mod Urls
mod Tests
