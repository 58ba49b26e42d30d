-- ===== src/Router/Inv.antt =====
-- internal/router: what every state of the router's loop keeps.
pub mod Untouched
pub mod Told
pub mod Schedule
pub mod Booked
pub mod Probed
pub mod Ledger
