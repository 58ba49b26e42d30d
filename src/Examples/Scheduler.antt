-- ===== src/Examples/Scheduler.antt =====
-- A scheduler with two models: 2 is ready, and 1 is loaded only once 2 is gone.
use infer_swap.Common.{
  ℕ, ◌≤◌, ◌<◌, true, false, ◌≡◌, refl, Option, none, some, List, [], ◌∷◌, ◌==◌, length, arith,
  contains, if◌then◌else◌,
}
use infer_swap.Wire.{State}
use infer_swap.Sched.Types.{Fifo, Env, HandlerReq, swapper, unloading}
use infer_swap.Sched.Load
use infer_swap.Sched.Gates
use infer_swap.Sched.Probe
use infer_swap.Sched.Dispatch
use infer_swap.Sched.Load.{slots, limit, is_recovering}
use infer_swap.Sched.Gates.{drain_expired, drain_deadline}
use infer_swap.Sched.Handlers
use infer_swap.Sched.Handlers.{new}
use infer_swap.Sched.Dispatch.{try_dispatch, dispatch_loop}
use infer_swap.Sched.Step.{Event, step, Reachable, initial, after}
use infer_swap.Sched.Inv.Slots.{slots-le-limit}
use infer_swap.Sched.Inv.Victims.{unloading_victims_idle}
use infer_swap.Sched.Inv.Bounds.{queued-le-max}
use infer_swap.Sched.Inv.Line.{line, line-step}
use infer_swap.Sched.Pass.Ends.{dispatch_loop-try_dispatch}

abbrev pub states : List (ℕ × State)
states = (1, State.stopped) ∷ (2, State.ready) ∷ []

abbrev pub state_of : ℕ → Option State
state_of id = if id == 1 then some State.stopped else if id == 2 then some State.ready else none

abbrev pub two_models : Env
two_models = record {
  model_state = state_of;
  running_models = states;
  planner = swapper (λ target running. if target == 1 then 2 ∷ [] else []);
  recovery = none;
  accepts = λ _. true;
  ctx_done = λ _. false;
  admit_takes = λ _. true;
  now = 1_000;
}

abbrev pub ask : ℕ → ℕ → HandlerReq
ask id model = record { id = id; model = model; has_admit = true }

abbrev pub start : Fifo
start = new (λ _. 1) 2 60_000

-- Model 2 serves a request.
abbrev pub serving : Fifo
serving = step two_models (Event.request (ask 7 2)) start

-- A request for model 1 waits for it.
abbrev pub draining : Fifo
draining = step two_models (Event.request (ask 8 1)) serving

-- Model 2 is unloaded for a request for model 1.
abbrev pub evicting : Fifo
evicting = step two_models (Event.request (ask 8 1)) start

pub start-Reachable : Reachable start
start-Reachable = initial (λ _. 1) 2 60_000

pub serving-Reachable : Reachable serving
serving-Reachable = after two_models (Event.request (ask 7 2)) start-Reachable

pub draining-Reachable : Reachable draining
draining-Reachable = after two_models (Event.request (ask 8 1)) serving-Reachable

evicting-Reachable : Reachable evicting
evicting-Reachable = after two_models (Event.request (ask 8 1)) start-Reachable

evicting_unloads : (evicting.phase ≡ unloading) × (contains 2 evicting.swap_evict ≡ true)
unfolding step new Handlers.on_request Handlers.accept_request Handlers.with_id Handlers.count_id
    Handlers.admit Handlers.enqueue try_dispatch dispatch_loop Dispatch.pass Dispatch.after_recover
    Dispatch.recover_head Probe.maybe_recover Dispatch.dispatch_queue Gates.reopen_unused_gates
    Dispatch.try_head Load.blocked Load.eviction_for limit slots Dispatch.act Load.decide
    Dispatch.evict_for Gates.drain_expired Gates.close_gates Load.any_busy Load.work
    Load.any_unload_failed Dispatch.begin_unload Probe.set_phase Probe.maybe_recover_at
evicting_unloads = (refl, refl)

draining_short : length draining.queued < 5
unfolding step new Handlers.on_request Handlers.accept_request Handlers.with_id Handlers.count_id
    Handlers.admit Handlers.enqueue try_dispatch dispatch_loop Dispatch.pass Dispatch.after_recover
    Dispatch.recover_head Probe.maybe_recover Dispatch.dispatch_queue Gates.reopen_unused_gates
    Dispatch.try_head Load.blocked Load.eviction_for limit slots Dispatch.act Load.decide
    Dispatch.evict_for Gates.drain_expired Gates.close_gates Load.any_busy Load.work
    Load.any_unload_failed Dispatch.begin_unload Probe.set_phase Probe.maybe_recover_at
    Dispatch.serve_or_load Dispatch.grant_head Gates.arm_drain
draining_short = omega arith

slots-le-limit_example : slots serving 2 ≤ limit serving 2
slots-le-limit_example = slots-le-limit serving-Reachable 2

unloading_victims_idle_example : (slots evicting 2 ≡ 0) × (evicting.gate_closed 2 ≡ true)
unloading_victims_idle_example =
    unloading_victims_idle evicting-Reachable evicting_unloads.0 2 evicting_unloads.1

dispatch_loop-try_dispatch_example :
    dispatch_loop 5 two_models draining ≡ some (try_dispatch two_models draining)
dispatch_loop-try_dispatch_example = dispatch_loop-try_dispatch 5 two_models draining draining_short

line-step_example : line (step two_models (Event.proxy_start 2) draining) ≡ line draining
line-step_example = line-step two_models (Event.proxy_start 2) draining refl

queued-le-max_example : length draining.queued ≤ draining.max_q
queued-le-max_example = queued-le-max draining-Reachable

-- The gate of model 2 was closed at 500, with 300 to drain.
abbrev gated : Fifo
gated = record start { gate_at = λ id. if id == 2 then some 500 else none; drain = 300 }
