-- ===== src/Resource.antt =====
-- internal/resource: one GPU observation, its freshness, and the admission test on int64 bytes.
pub mod Admit
pub mod Fits
pub mod Overflow
