-- ===== src/Examples/Recovery.antt =====
-- The plan of a recovery, and swaps that fail.
use infer_swap.Common.{true, false, ◌≡◌, refl, some, [], ◌∷◌, contains}
use infer_swap.Wire.{State}
use infer_swap.Sched.Types.{
  Fifo, sched, foreign, unload_blocked, grant_error, unloading, loading, RecoveryFacts,
}
use infer_swap.Sched.Probe.{plan_recovery}
use infer_swap.Sched.Swaps.{on_unload_done}
use infer_swap.Sched.Plan.{plan_recovery_covers}
use infer_swap.Sched.Outcome.{Next, unload_failure_answer}
use infer_swap.Examples.Scheduler.{two_models, ask, start}

-- Models 3 and 1 have failed, 2 is unknown and waits for a sample.
abbrev facts : RecoveryFacts
facts = record {
  states = (3, State.failed) ∷ (2, State.unknown) ∷ (1, State.failed) ∷ [];
  markers = λ id. contains id (2 ∷ []);
  in_flight = λ _. false;
}

plan_recovery_covers_example :
    let plan = plan_recovery 3 facts (λ _. false) in
    (contains 1 plan.status ≡ true) × (contains 1 plan.samples ≡ false)
plan_recovery_covers_example = plan_recovery_covers 3 facts (λ _. false) 1

-- Model 2 is unloaded for a request that has gone; another one heads the queue.
abbrev swapping : Fifo
swapping = record start {
  phase = unloading;
  queued = ask 8 2 ∷ ask 9 1 ∷ [];
  swap_target = 1;
  swap_evict = 2 ∷ [];
  unload_began = true;
}

unload_failure_answer_example :
    Next swapping.out
      (grant_error (ask 8 2) (sched unload_blocked))
      (on_unload_done two_models (some (foreign 5)) swapping).out
unload_failure_answer_example =
    unload_failure_answer two_models (foreign 5) swapping (ask 8 2) (ask 9 1 ∷ []) refl refl

abbrev loading_one : Fifo
loading_one = record start { phase = loading; queued = ask 9 1 ∷ []; swap_target = 1 }
