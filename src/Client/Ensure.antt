-- ===== src/Client/Ensure.antt =====
-- internal/runtime/client.go: doEnsure, ensureFromStatus and waitReady. What the control endpoint,
-- the prepare command and the load gate answer are arguments.
use infer_swap.Common.{
  ℕ, ◌+◌, Bool, true, false, ◌&&◌, List, [], ◌∷◌, ◌==◌, leb, ltb, if◌then◌else◌, Option, none, some,
}
use infer_swap.Wire.{WireState, Status, is_wire_ready, is_resident, is_not_resident}
use infer_swap.Client.Types.{
  Err, timed_out, is_down, canceled, refused, not_confirmed, Answer, status, error, Outcome, done,
  failed,
}

-- One round of waitReady: the time, whether the context is done, and the status that is fetched.
pub record Poll : Type 0 where
  pub now : ℕ
  pub ctx_done : Bool
  pub ctx_done_waiting : Bool
  pub answer : Answer

-- What a fetched status says in waitReady; `none` is a further round.
unfoldable pub poll_outcome : WireState → Option Outcome
poll_outcome WireState.ready = some done
poll_outcome WireState.failed = some (failed refused)
poll_outcome WireState.unloaded = some (failed refused)
poll_outcome _ = none

unfoldable pub poll_answer : Poll → Option Outcome
unfolding poll_outcome
poll_answer p = elim p.answer [
  | status st ↦ poll_outcome st.state
  | error e ↦ if p.ctx_done then some (failed canceled) else none
]

abbrev pub or_canceled : Bool → Outcome → Outcome
or_canceled ctx_done rest = if ctx_done then failed canceled else rest

-- The loop ends by the deadline at the latest; the list holds the rounds that the clock allows.
unfoldable pub wait_ready : ℕ → List Poll → Outcome
unfolding poll_answer
wait_ready deadline [] = failed timed_out
wait_ready deadline (p ∷ ps) =
    let rest = wait_ready deadline ps in
    if leb deadline p.now
    then failed timed_out
    else elim (poll_answer p) [ some o ↦ o | none ↦ or_canceled p.ctx_done_waiting rest ]

-- The calls that a load makes beyond reading the status.
pub data Call : Type 0 where
  prepare ask_gate post_load : Call

-- What doEnsure meets, in the order in which it asks: the status, the prepare command, the status
-- again, the load gate, the load, the status after a timeout, and the rounds of waitReady.
pub record Remote : Type 0 where
  pub first : Answer
  pub prepared : Outcome
  pub second : Answer
  pub now : ℕ
  pub gate : Outcome
  pub posted_at : ℕ
  pub posted : Answer
  pub observed : Answer
  pub polls : List Poll

abbrev pub is_idle_gone : Status → Bool
is_idle_gone st = is_not_resident st.residency && st.active_requests == 0

abbrev pub is_wire_failed : WireState → Bool
is_wire_failed WireState.failed = true
is_wire_failed _ = false

abbrev pub is_wire_loading : WireState → Bool
is_wire_loading WireState.loading = true
is_wire_loading _ = false

abbrev pub is_timeout : Err → Bool
is_timeout timed_out = true
is_timeout _ = false

abbrev pub is_endpoint_down : Err → Bool
is_endpoint_down is_down = true
is_endpoint_down _ = false

-- `loadBudget`.
unfoldable pub load_budget : ℕ → ℕ → ℕ
load_budget health_check timeout = if ltb 0 timeout then timeout else health_check

-- After a load that timed out the status decides.
unfoldable pub after_timeout : Remote → ℕ → Err → Answer → Outcome
after_timeout r deadline e (error ferr) = failed e
after_timeout r deadline e (status st) =
    if is_wire_ready st.state
    then done
    else if is_wire_loading st.state
    then wait_ready deadline r.polls
    else if is_wire_failed st.state && is_idle_gone st
    then failed refused
    else failed not_confirmed

unfoldable pub loaded : Remote → ℕ → Answer → Outcome
unfolding after_timeout
loaded r deadline (error e) =
    if is_timeout e then after_timeout r deadline e r.observed else failed e
loaded r deadline (status st) =
    if is_wire_ready st.state && is_resident st.residency then done else failed not_confirmed

unfoldable pub gated_load : Remote → ℕ → Outcome → Outcome × List Call
unfolding loaded
gated_load r budget (failed e) = (failed e, ask_gate ∷ [])
gated_load r budget done = (loaded r (r.posted_at + budget) r.posted, ask_gate ∷ post_load ∷ [])

unfoldable pub ensure_from_status : Remote → ℕ → WireState → Status → Outcome × List Call
unfolding gated_load
ensure_from_status r budget WireState.ready st = (done, [])
ensure_from_status r budget WireState.loading st = (wait_ready (r.now + budget) r.polls, [])
ensure_from_status r budget WireState.unloading st = (failed refused, [])
ensure_from_status r budget WireState.failed st =
    if is_idle_gone st then gated_load r budget r.gate else (failed refused, [])
ensure_from_status r budget WireState.unloaded st = gated_load r budget r.gate

-- The last status before the decision: an endpoint that is still down is an error like any other.
unfoldable pub ensure_from_answer : Remote → ℕ → Answer → Outcome × List Call
unfolding ensure_from_status
ensure_from_answer r budget (error e) = (failed e, [])
ensure_from_answer r budget (status st) = ensure_from_status r budget st.state st

unfoldable pub after_prepare : Remote → ℕ → Outcome → Outcome × List Call
after_prepare r budget (failed e) = (failed e, prepare ∷ [])
after_prepare r budget done =
    let (o, calls) = ensure_from_answer r budget r.second in (o, prepare ∷ calls)

abbrev pub answer_down : Answer → Bool
answer_down (status st) = false
answer_down (error e) = is_endpoint_down e

unfoldable pub do_ensure : Remote → ℕ → Outcome × List Call
unfolding after_prepare ensure_from_answer
do_ensure r budget =
    if answer_down r.first
    then after_prepare r budget r.prepared
    else ensure_from_answer r budget r.first
