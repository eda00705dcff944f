-- ===== src/Structs.antt =====
-- acmed/src/acme_proto/structs and the types that hooks and templates take: what the program sends
-- and receives, as data. The JSON forms are serde's.
pub mod Problem
pub mod Identifier
pub mod Order
pub mod Authorization
pub mod Directory
pub mod Account
pub mod Storage
