-- ===== src/Crypto.antt =====
-- acme_common/src/crypto: the names of key types, signature algorithms and digests, and which of
-- them go together. `Names` has what the text forms keep.
pub mod Algorithm
pub mod KeyType
pub mod Hash
pub mod Names
pub mod Subject
pub mod X509
pub mod Keys
