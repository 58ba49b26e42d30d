-- ===== src/Mock.antt =====
-- internal/runtime/mock: the model project that the tests run against.
pub mod State
pub mod Handlers
pub mod Control
pub mod Closed
pub mod Kept
pub mod Honest
pub mod Served
