-- ===== src/Storage.antt =====
-- acmed/src/storage.rs: the files of the accounts, the private keys and the certificates.
pub mod Paths
pub mod Files
pub mod Write
pub mod Unhooked
pub mod Elsewhere
