-- ===== src/Proto.antt =====
-- acmed/src/acme_proto.rs and its children: how a certificate is requested.
pub mod Proof
pub mod Http
pub mod Keys
pub mod Order
pub mod Authorize
pub mod Request
pub mod Wide
pub mod Frame
pub mod Kept
pub mod Nonce
pub mod Pool
pub mod Download
pub mod Untouched
pub mod Fuel
