-- ===== src/Config.antt =====
-- internal/config/config.go: the configuration file, its validation and its names.
pub mod Types
pub mod Checks
pub mod Models
pub mod Load
pub mod Seconds
pub mod Sound
pub mod Names
pub mod Accepted
pub mod Resolved
pub mod Order
pub mod Reordered
