-- ===== src/Router.antt =====
-- internal/router: the GPU budget, the ledger of a recovery, and the loop that joins both to the
-- scheduler.
pub mod State
pub mod Budget
pub mod Ledger
pub mod Loop
pub mod Step
pub mod Unload
pub mod Unloaded
pub mod Proved
pub mod Cleared
pub mod Leave
pub mod Left
pub mod Visit
pub mod Visited
pub mod Messages
pub mod Probes
pub mod Inv
pub mod Decisions
pub mod Admission
pub mod Rollback
pub mod Applied
pub mod Observation
