-- ===== src/Router/Leave.antt =====
-- internal/router/base.go: releaseOnShutdown, Shutdown and Remaining. What the context, the scheduler,
-- the runtimes, the clocks and the observer answer are arguments.
use infer_swap.Common.{
  ℕ, zero, suc, ◌+◌, Bool, true, false, not, Option, none, some, List, [], ◌∷◌, ltb, sort_ids,
  if◌then◌else◌,
}
use infer_swap.Wire.{State}
use infer_swap.Resource.Admit.{Snapshot}
use infer_swap.Config.Checks.{second}
use infer_swap.Sched.Types.{Fault, foreign}
use infer_swap.Router.Unload.{
  Round, Waited, still_waiting, ended, wait_idle, Look, Sampled, got, still_looking, gave_up,
  sample_until, positive_or, drain_budget,
}

-- One round of the wait for the calls of a model: whether the context is done, whether the scheduler
-- protects the model, the wall clock, and whether the context is done in the wait.
pub record Poll : Type 0 where
  pub cancelled : Bool
  pub protected : Bool
  pub now : ℕ
  pub cancelled_waiting : Bool

-- What releaseOnShutdown meets at a model. `ends_at` is the context's deadline, if it has one.
pub record Leaving : Type 0 where
  pub cancelled : Bool
  pub now : ℕ
  pub ends_at : Option ℕ
  pub polls : ℕ → Poll
  pub state : State
  pub rounds : ℕ → Round
  pub stop : ℕ → Option Fault
  pub stopped_at : ℕ
  pub seen_at : ℕ
  pub looks : ℕ → Look

pub record Budget : Type 0 where
  pub device : ℕ
  pub drain_timeout : ℕ
  pub shutdown_timeout : ℕ

-- How it ends: with nothing to release, with a sample after the Stop, or with an error.
pub data Left : Type 0 where
  unfinished : Left
  nothing_left : Left
  released : ℕ → Snapshot → Left
  unreleased : Fault → Left

abbrev pub context_done : Fault
context_done = foreign 3

abbrev pub still_executing : Fault
still_executing = foreign 4

abbrev pub wrong_state : Fault
wrong_state = foreign 5

abbrev pub earlier : Option ℕ → ℕ → ℕ
earlier none deadline = deadline
earlier (some d) deadline = if ltb d deadline then d else deadline

unfoldable pub after_wait_sample : ℕ → Sampled → Left
after_wait_sample at still_looking = unfinished
after_wait_sample at (got snap) = released at snap
after_wait_sample at (gave_up e) = unreleased e

unfoldable pub after_leave_stop : Budget → Leaving → ℕ → Option Fault → Left
unfolding after_wait_sample sample_until
after_leave_stop b l fuel (some e) = unreleased e
after_leave_stop b l fuel none =
    after_wait_sample l.stopped_at
      (sample_until b.device l.stopped_at (l.seen_at + drain_budget b.drain_timeout) l.looks fuel 0)

unfoldable pub after_leave_wait : Budget → Leaving → ℕ → Waited → Left
unfolding after_leave_stop
after_leave_wait b l fuel still_waiting = unfinished
after_leave_wait b l fuel (ended (some e)) = unreleased e
after_leave_wait b l fuel (ended none) =
    after_leave_stop b l fuel (l.stop (positive_or b.shutdown_timeout second))

-- Only a model that is ready is stopped.
unfoldable pub stop_in : Budget → Leaving → ℕ → ℕ → State → Left
unfolding after_leave_wait wait_idle
stop_in b l fuel deadline State.stopped = nothing_left
stop_in b l fuel deadline State.shutdown = nothing_left
stop_in b l fuel deadline State.ready =
    after_leave_wait b l fuel (wait_idle deadline l.rounds fuel 0)
stop_in b l fuel deadline _ = unreleased wrong_state

-- One such round; `next` is what follows the loop, `rest` the rounds after this one.
unfoldable pub poll_left : ℕ → Poll → Left → Left → Left
poll_left deadline p next rest =
    if p.cancelled
    then unreleased context_done
    else if not p.protected
    then next
    else if not (ltb p.now deadline)
    then unreleased still_executing
    else if p.cancelled_waiting
    then unreleased context_done
    else rest

-- The loop that waits until no call protects the model; `next` is what follows it.
unfoldable pub wait_unprotected : ℕ → (ℕ → Poll) → Left → ℕ → ℕ → Left
unfolding poll_left
wait_unprotected deadline polls next zero i = unfinished
wait_unprotected deadline polls next (suc fuel) i =
    let rest = wait_unprotected deadline polls next fuel (suc i) in
    poll_left deadline (polls i) next rest

unfoldable pub release_on_shutdown : Budget → Leaving → ℕ → Left
unfolding wait_unprotected stop_in
release_on_shutdown b l fuel =
    let deadline = earlier l.ends_at (l.now + drain_budget b.drain_timeout) in
    if l.cancelled
    then unreleased context_done
    else wait_unprotected deadline l.polls (stop_in b l fuel deadline l.state) fuel 0

unfoldable pub add_failed : ℕ → Left → Option (List ℕ) → Option (List ℕ)
add_failed id unfinished rest = none
add_failed id (unreleased e) none = none
add_failed id (unreleased e) (some failed) = some (id ∷ failed)
add_failed id nothing_left rest = rest
add_failed id (released at snap) rest = rest

-- The models of Shutdown whose release failed, in the order of the range.
unfoldable pub failed_of : Budget → ℕ → List (ℕ × Leaving) → Option (List ℕ)
unfolding release_on_shutdown add_failed
failed_of b fuel [] = some []
failed_of b fuel ((id, l) ∷ ls) = add_failed id (release_on_shutdown b l fuel) (failed_of b fuel ls)

-- How Shutdown ends: the context is done before the loop has taken the shutdown or before it has
-- ended, or all models have been gone through, with those that it has not confirmed.
pub data Closed : Type 0 where
  out_of_time : Closed
  closed : List ℕ → Closed

-- What `Unconfirmed` reports afterwards, and what Shutdown returns.
unfoldable pub shutdown_router :
    Budget → ℕ → Bool → Bool → List (ℕ × Leaving) → Option (List ℕ × Closed)
unfolding failed_of
shutdown_router b fuel taken loop_ended ls =
    if not taken then some ([], out_of_time) else elim (failed_of b fuel ls) [
      | none ↦ none
      | some failed ↦
          let sorted = sort_ids failed in
          some (sorted, if loop_ended then closed sorted else out_of_time)
    ]

abbrev pub is_gone : State → Bool
is_gone State.stopped = true
is_gone State.shutdown = true
is_gone _ = false

-- Remaining: the models that are neither stopped nor shut down.
unfoldable pub remaining : List (ℕ × State) → List ℕ
remaining [] = []
remaining ((id, st) ∷ sts) = let rest = remaining sts in if is_gone st then rest else id ∷ rest
