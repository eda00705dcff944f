-- ===== src/Account.antt =====
-- acmed/src/account.rs and its children, and acmed/src/acme_proto/account.rs.
pub mod Contact
pub mod State
pub mod Storage
pub mod Load
pub mod Messages
pub mod Sync
pub mod Known
pub mod Steps
pub mod Register
pub mod InSync
pub mod RoundTrip
pub mod Idle
pub mod Configured
pub mod PastKeys
