-- ===== src/Examples.antt =====
-- Runs of the model on concrete inputs: one for each theorem with hypotheses.
mod Scheduler
mod Queue
mod Recovery
mod Runtime
mod Budget
mod Loop
mod Configs
mod Endings
mod Callers
mod Mocks
