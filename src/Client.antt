-- ===== src/Client.antt =====
-- internal/runtime/client.go: the run loop of a model's client, and the control calls that it makes.
pub mod Types
pub mod Calls
pub mod Fetched
pub mod Ensure
pub mod Release
pub mod Loop
pub mod Inv
pub mod Answers
pub mod Evidence
