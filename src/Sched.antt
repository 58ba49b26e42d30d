-- ===== src/Sched.antt =====
-- internal/router/scheduler: the FIFO scheduler and its recovery phase.
pub mod Types
pub mod Load
pub mod Gates
pub mod Probe
pub mod Dispatch
pub mod Handlers
pub mod Swaps
pub mod Notes
pub mod Step
pub mod Changes
pub mod Pass
pub mod Works
pub mod Acts
pub mod Drain
pub mod Plan
pub mod Outcome
pub mod Inv
