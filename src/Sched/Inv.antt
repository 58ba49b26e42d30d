-- ===== src/Sched/Inv.antt =====
-- Invariants of the scheduler, each kept by every pass of tryDispatch and by every event.
pub mod Slots
pub mod Victims
pub mod Line
pub mod Numbers
pub mod Queue
pub mod Bounds
