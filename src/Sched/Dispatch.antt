-- ===== src/Sched/Dispatch.antt =====
-- internal/router/scheduler/fifo.go: tryDispatch. Each of its recursive calls is a tail call, so it
-- is a loop of `pass`, which returns whether tryDispatch is called again.
use infer_swap.Common.{
  ℕ, zero, suc, ◌+◌, Bool, true, false, Option, none, some, List, [], ◌∷◌, ◌++◌, leb, if◌then◌else◌,
  next_u64, update, length,
}
use infer_swap.Wire.{is_ready}
use infer_swap.Sched.Types.{
  Fifo, Env, HandlerReq, Phase, idle, unloading, loading, Fault, sched, unload_blocked,
  drain_timeout, grant_error, grant_serve, start_unload, start_load, Decision, evicts, refused,
}
use infer_swap.Sched.Load.{
  is_recovering, any_busy, slots, limit, running_ids, decide, any_unload_failed, blocked,
}
use infer_swap.Sched.Gates.{
  close_gates, open_gates, reopen_unused_gates, drain_expired, drain_deadline, arm_drain,
}
use infer_swap.Sched.Probe.{Verdict, go_on, settled, again, set_phase, maybe_recover, state_is}

-- The head leaves the queue with an error.
unfoldable pub refuse : HandlerReq → List HandlerReq → Fault → Fifo → Fifo
refuse head rest err s = record s { queued = rest; out = s.out ++ grant_error head err ∷ [] }

-- `grantHead`: a slot is taken only if the caller still listens.
unfoldable pub grant_head : Env → HandlerReq → List HandlerReq → Fifo → Fifo
grant_head env head rest s =
    let taken = env.accepts head in
    let s' = record s { queued = rest; out = s.out ++ grant_serve head head.model taken ∷ [] } in
    if taken
    then record s' {
      dispatch_gen = update s.dispatch_gen head.model (next_u64 (s.dispatch_gen head.model));
      quiet_gen = update s.quiet_gen head.model 0;
      pending = update s.pending head.model (s.pending head.model + 1);
    }
    else s'

unfoldable pub fail_drain : HandlerReq → List HandlerReq → List ℕ → Fifo → Fifo
unfolding refuse
fail_drain head rest victims s =
    refuse head rest (sched drain_timeout) (record (open_gates victims s) { drain_armed = false })

unfoldable pub begin_unload : Env → HandlerReq → List ℕ → Fifo → Fifo
unfolding set_phase
begin_unload env head victims s = record (set_phase unloading s) {
  swap_target = head.model;
  swap_evict = victims;
  unload_began = true;
  drain_armed = false;
  out = s.out ++ start_unload victims (drain_deadline env s victims) ∷ [];
}

unfoldable pub begin_load : HandlerReq → Fifo → Fifo
unfolding set_phase
begin_load head s = record (set_phase loading s) {
  swap_target = head.model;
  out = s.out ++ start_load head.model ∷ [];
}

-- The head waits for victims: their gates are closed already.
unfoldable pub evict_for : Env → HandlerReq → List HandlerReq → List ℕ → Fifo → Fifo × Bool
evict_for env head rest victims s =
    if drain_expired env s victims
    then (fail_drain head rest victims s, true)
    else if any_busy s victims
    then (arm_drain env victims s, false)
    else if any_unload_failed s victims
    then (refuse head rest (sched unload_blocked) s, true)
    else (begin_unload env head victims s, false)

unfoldable pub serve_or_load : Env → HandlerReq → List HandlerReq → Fifo → Fifo × Bool
serve_or_load env head rest s =
    if state_is is_ready (env.model_state head.model)
    then (grant_head env head rest s, true)
    else (begin_load head s, false)

unfoldable pub act : Env → HandlerReq → List HandlerReq → Decision → Fifo → Fifo × Bool
act env head rest (refused err) s = (refuse head rest err s, true)
act env head rest (evicts []) s = serve_or_load env head rest s
act env head rest (evicts (v ∷ vs)) s =
    evict_for env head rest (v ∷ vs) (close_gates env (v ∷ vs) s)

unfoldable pub try_head : Env → HandlerReq → List HandlerReq → Fifo → Fifo × Bool
try_head env head rest s =
    if blocked env s head.model
    then (refuse head rest (sched unload_blocked) s, true)
    else if leb (limit s head.model) (slots s head.model)
    then (s, false)
    else act env head rest (decide env.planner head.model (running_ids env s)) s

unfoldable pub dispatch_queue : Env → Phase → List HandlerReq → Fifo → Fifo × Bool
dispatch_queue env idle (head ∷ rest) s = try_head env head rest s
dispatch_queue env _ _ s = (s, false)

-- The recovery is tried for the head of an idle queue.
unfoldable pub recover_head : Env → Phase → List HandlerReq → Fifo → Fifo × Verdict
recover_head env idle (head ∷ rest) s = maybe_recover env head s
recover_head env _ _ s = (s, go_on)

unfoldable pub after_recover : Env → Fifo × Verdict → Fifo × Bool
after_recover env (s, go_on) =
    let s' = reopen_unused_gates env s in dispatch_queue env s'.phase s'.queued s'
after_recover env (s, settled) = (s, false)
after_recover env (s, again) = (s, true)

unfoldable pub pass : Env → Fifo → Fifo × Bool
pass env s =
    if is_recovering s.phase
    then (s, false)
    else after_recover env (recover_head env s.phase s.queued s)

-- `none`: the fuel ran out.
unfoldable pub dispatch_loop : ℕ → Env → Fifo → Option Fifo
dispatch_loop zero env s = none
dispatch_loop (suc fuel) env s =
    let (s', again') = pass env s in
    let rest = dispatch_loop fuel env s' in if again' then rest else some s'

abbrev pub or_else : Fifo → Option Fifo → Fifo
or_else s none = s
or_else s (some t) = t

-- A pass that asks for another one has taken a request off the queue.
unfoldable pub try_dispatch : Env → Fifo → Fifo
try_dispatch env s = or_else s (dispatch_loop (suc (length s.queued)) env s)
