-- ===== src/Router/Unload.antt =====
-- internal/router/base.go: waitIdle, sampleAfter and the goroutine of StartUnload. What the clocks, the
-- runtimes and the observer answer are streams, one value for each round of a loop; the fuel bounds
-- the rounds.
use infer_swap.Common.{
  ℕ, zero, suc, ◌+◌, Bool, true, false, not, ◌&&◌, Option, none, some, List, [], ◌∷◌, ◌==◌, ltb,
  slt, if◌then◌else◌,
}
use infer_swap.Wire.{WireState, Status}
use infer_swap.Resource.Admit.{Snapshot}
use infer_swap.Config.Checks.{second}
use infer_swap.Sched.Types.{Fault, sched, foreign, drain_timeout, shutdown}
use infer_swap.Router.Loop.{Notice, no_snapshot}

-- One round of waitIdle: the time at its head, the status (none is an error), the time after it, and
-- whether the router is shut down in the wait that follows.
pub record Round : Type 0 where
  pub now : ℕ
  pub answer : Option Status
  pub later : ℕ
  pub shut : Bool

pub data Waited : Type 0 where
  still_waiting : Waited
  ended : Option Fault → Waited

abbrev pub is_moving : WireState → Bool
is_moving WireState.loading = true
is_moving WireState.unloading = true
is_moving _ = false

abbrev pub is_idle : Status → Bool
is_idle st = st.active_requests == 0 && not (is_moving st.state)

unfoldable pub after_status : ℕ → Round → Option Status → Waited → Waited
after_status deadline r none rest = ended (some (sched drain_timeout))
after_status deadline r (some st) rest =
    if is_idle st
    then ended none
    else if not (ltb r.later deadline)
    then ended (some (sched drain_timeout))
    else if r.shut
    then ended (some (sched shutdown))
    else rest

unfoldable pub wait_idle : ℕ → (ℕ → Round) → ℕ → ℕ → Waited
unfolding after_status
wait_idle deadline rounds zero i = still_waiting
wait_idle deadline rounds (suc fuel) i =
    let rest = wait_idle deadline rounds fuel (suc i) in
    let r = rounds i in
    if not (ltb r.now deadline)
    then ended (some (sched drain_timeout))
    else after_status deadline r r.answer rest

-- One round of sampleAfter: what the observer says, the time after that, and a shutdown in the wait.
pub record Look : Type 0 where
  pub answer : Option Snapshot
  pub now : ℕ
  pub shut : Bool

pub data Sampled : Type 0 where
  still_looking : Sampled
  got : Snapshot → Sampled
  gave_up : Fault → Sampled

abbrev pub is_later : ℕ → ℕ → Snapshot → Bool
is_later device after snap = snap.valid && snap.device_id == device && ltb after snap.observed_at

abbrev not_observed : Fault
not_observed = foreign 1

unfoldable pub after_look : ℕ → Look → Sampled → Sampled
after_look deadline l rest =
    if not (ltb l.now deadline)
    then gave_up not_observed
    else if l.shut
    then gave_up (sched shutdown)
    else rest

unfoldable pub look_at : ℕ → ℕ → ℕ → Look → Option Snapshot → Sampled → Sampled
unfolding after_look
look_at device after deadline l none rest = after_look deadline l rest
look_at device after deadline l (some snap) rest =
    if is_later device after snap then got snap else after_look deadline l rest

unfoldable pub sample_until : ℕ → ℕ → ℕ → (ℕ → Look) → ℕ → ℕ → Sampled
unfolding look_at
sample_until device after deadline looks zero i = still_looking
sample_until device after deadline looks (suc fuel) i =
    let rest = sample_until device after deadline looks fuel (suc i) in
    look_at device after deadline (looks i) (looks i).answer rest

-- A timeout of the configuration that is positive, or else another; a Duration is an int64.
abbrev pub positive_or : ℕ → ℕ → ℕ
positive_or d other = if slt 0 d then d else other

abbrev pub drain_budget : ℕ → ℕ
drain_budget configured = positive_or configured 180_000_000_000

-- The timeout of a model's Stop: the model's own, or else the configuration's.
unfoldable pub stop_budget : Option ℕ → ℕ → ℕ
stop_budget none global = positive_or global second
stop_budget (some own) global = positive_or own (positive_or global second)

-- What the goroutine meets at one model: whether it has a runtime, its timeout if it is configured,
-- the rounds of waitIdle, what Stop answers to a timeout, and the clock when Stop has returned.
pub record Site : Type 0 where
  pub known : Bool
  pub timeout : Option ℕ
  pub rounds : ℕ → Round
  pub stop : ℕ → Option Fault
  pub stopped_at : ℕ

-- What StartUnload meets. `now` is the clock at the start, `seen_at` the clock when sampleAfter starts.
pub record Job : Type 0 where
  pub site : ℕ → Site
  pub device : ℕ
  pub drain_timeout : ℕ
  pub unload_timeout : ℕ
  pub now : ℕ
  pub seen_at : ℕ
  pub looks : ℕ → Look

-- The loop over the models: the first error and the time of the last Stop.
pub data Each : Type 0 where
  unfinished : Each
  each : Option Fault → ℕ → Each

unfoldable pub after_stop : Option Fault → ℕ → Each → Each
after_stop none at rest = rest
after_stop (some e) at rest = each (some e) at

unfoldable pub after_wait : Waited → Option Fault → ℕ → Each → Each
unfolding after_stop
after_wait still_waiting stop at rest = unfinished
after_wait (ended (some e)) stop at rest = each (some e) at
after_wait (ended none) stop at rest = after_stop stop at rest

unfoldable pub unload_each : Job → ℕ → ℕ → List ℕ → ℕ → Each
unfolding after_wait stop_budget wait_idle
unload_each j deadline fuel [] at = each none at
unload_each j deadline fuel (id ∷ ids) at =
    let s = j.site id in
    let skipped = unload_each j deadline fuel ids at in
    let stopped = unload_each j deadline fuel ids s.stopped_at in
    if not s.known
    then skipped
    else after_wait (wait_idle deadline s.rounds fuel 0)
        (s.stop (stop_budget s.timeout j.unload_timeout)) at stopped

pub data Sent : Type 0 where
  nothing_yet : Sent
  notice : Notice → Sent

abbrev pub incomplete : Fault
incomplete = foreign 2

abbrev pub failed_notice : List ℕ → Fault → ℕ → Notice
failed_notice ids e at = record { ids = ids; err = some e; sample = no_snapshot; at = at }

unfoldable pub after_sample : List ℕ → ℕ → Sampled → Sent
after_sample ids at still_looking = nothing_yet
after_sample ids at (got snap) = notice (record { ids = ids; err = none; sample = snap; at = at })
after_sample ids at (gave_up e) = notice (failed_notice ids e at)

unfoldable pub after_each : Job → ℕ → List ℕ → Each → Sent
unfolding after_sample sample_until
after_each j fuel ids unfinished = nothing_yet
after_each j fuel ids (each (some e) at) = notice (failed_notice ids e 0)
after_each j fuel ids (each none at) =
    let deadline = j.seen_at + drain_budget j.drain_timeout in
    if at == 0
    then notice (failed_notice ids incomplete 0)
    else after_sample ids at (sample_until j.device at deadline j.looks fuel 0)

-- The goroutine of StartUnload, up to the notice that it sends to the loop.
unfoldable pub start_unload : Job → ℕ → List ℕ → ℕ → Sent
unfolding after_each unload_each
start_unload j fuel ids deadline =
    let until = if deadline == 0 then j.now + drain_budget j.drain_timeout else deadline in
    after_each j fuel ids (unload_each j until fuel ids 0)
