-- ===== src/Web.antt =====
-- internal/proxy, internal/server and the error answers of internal/router: what a caller is answered.
pub mod Errors
pub mod Infer
pub mod Forwarded
pub mod Listing
pub mod Listed
