-- ===== src/Config.antt =====
-- acmed/src/config.rs: the configuration as it is read, and what the program makes of it.
pub mod Types
pub mod Lookup
pub mod Groups
pub mod Options
pub mod Inherited
pub mod Sections
pub mod Accounts
pub mod Merge
pub mod Toml
pub mod Identified
pub mod Reading
pub mod Included
pub mod Overlaps
pub mod Variables
pub mod Loaded
pub mod Depth
