-- ===== src/Sched/Pass.antt =====
-- What one pass of tryDispatch can do, and that the passes end.
pub mod Starts
pub mod Cases
pub mod Ends
