-- ===== src/Sched/Handlers.antt =====
-- internal/router/scheduler/fifo.go: the handlers of requests, proxy calls and swaps.
use infer_swap.Common.{
  ℕ, ◌+◌, ◌-◌, Bool, true, false, not, ◌&&◌, Option, none, some, List, [], ◌∷◌, ◌++◌, ltb, leb,
  ◌==◌, if◌then◌else◌, next_u64, update, length,
}
use infer_swap.Wire.{State}
use infer_swap.Sched.Types.{
  Fifo, Env, HandlerReq, StatusEvent, idle, Fault, sched, model_not_found, queue_full,
  queue_timeout, grant_error, admit_reply, proxy_reply,
}
use infer_swap.Sched.Probe.{drop_owner}
use infer_swap.Sched.Dispatch.{try_dispatch}

-- NewFIFO: a queue size or a drain time that is not positive is replaced by the default.
unfoldable pub new : (ℕ → ℕ) → ℕ → ℕ → Fifo
new limits queue_size drain_time = record {
  limits = limits;
  max_q = if ltb 0 queue_size then queue_size else 256;
  next_id = 0;
  queued = [];
  pending = λ _. 0;
  http_in = λ _. 0;
  backend = λ _. 0;
  unresolved = λ _. 0;
  dispatch_gen = λ _. 0;
  quiet_gen = λ _. 0;
  gate_closed = λ _. false;
  gate_at = λ _. none;
  drain = if ltb 0 drain_time then drain_time else 180_000_000_000;
  drain_armed = false;
  unload_fail = λ _. false;
  phase = idle;
  swap_target = 0;
  swap_evict = [];
  unload_began = false;
  token_seq = 0;
  recover_token = 0;
  recover_owner = 0;
  recover_model = 0;
  status_order = [];
  status_pos = 0;
  need_sample = [];
  checked = λ _. false;
  saw_resources = false;
  saw_lifecycle = false;
  skip_rest = false;
  inflight_model = 0;
  probe_started = λ _. none;
  accept_late = λ _. false;
  seen = λ _ _. false;
  out = [];
}

abbrev pub is_fault : Option Fault → Bool
is_fault none = false
is_fault (some e) = true

-- The reply on the Admit channel goes out unless the caller has gone.
unfoldable pub admit : Env → HandlerReq → Option Fault → Fifo → Fifo × Bool
admit env req err s =
    if not req.has_admit
    then (s, not (is_fault err))
    else if env.ctx_done req
    then (s, false)
    else if env.admit_takes req
    then (record s { out = s.out ++ admit_reply req err ∷ [] }, not (is_fault err))
    else (s, false)

unfoldable pub reject_admit : Env → HandlerReq → Fault → Fifo → Fifo
reject_admit env req err s =
    if req.has_admit && env.admit_takes req
    then record s { out = s.out ++ admit_reply req (some err) ∷ [] }
    else record s { out = s.out ++ grant_error req err ∷ [] }

-- `enqueue` is the end of OnRequest, for a request that may queue.
unfoldable pub enqueue : Env → HandlerReq → Fifo × Bool → Fifo
enqueue env req (s, false) = s
enqueue env req (s, true) = try_dispatch env (record s { queued = s.queued ++ req ∷ [] })

abbrev pub is_known : Option State → Bool
is_known none = false
is_known (some st) = true

-- A request without an id gets the next one.
unfoldable pub with_id : HandlerReq → Fifo → HandlerReq
with_id req s = if req.id == 0 then record req { id = next_u64 s.next_id } else req

unfoldable pub count_id : HandlerReq → Fifo → Fifo
count_id req s = if req.id == 0 then record s { next_id = next_u64 s.next_id } else s

unfoldable pub accept_request : Env → HandlerReq → Fifo → Fifo
unfolding enqueue admit
accept_request env req s =
    if not (is_known (env.model_state req.model))
    then reject_admit env req (sched model_not_found) s
    else if leb s.max_q (length s.queued)
    then reject_admit env req (sched queue_full) s
    else enqueue env req (admit env req none s)

unfoldable pub on_request : Env → HandlerReq → Fifo → Fifo
unfolding with_id count_id
on_request env req s = accept_request env (with_id req s) (count_id req s)

-- The first queued request with an id, and the queue without it.
unfoldable pub take_id : ℕ → List HandlerReq → Option (HandlerReq × List HandlerReq)
take_id id [] = none
take_id id (q ∷ qs) =
    let rest = take_id id qs in
    if q.id == id then some (q, qs) else elim rest [ none ↦ none | some (r, rs) ↦ some (r, q ∷ rs) ]

unfoldable pub cancel_taken : Env → ℕ → Option (HandlerReq × List HandlerReq) → Fifo → Fifo
cancel_taken env id none s = s
cancel_taken env id (some (q, rest)) s =
    try_dispatch env (drop_owner id (record s { queued = rest }))

unfoldable pub on_cancel : Env → HandlerReq → Fifo → Fifo
unfolding cancel_taken
on_cancel env req s = cancel_taken env req.id (take_id req.id s.queued) s

unfoldable pub time_out_taken : Env → ℕ → Option (HandlerReq × List HandlerReq) → Fifo → Fifo
time_out_taken env id none s = s
time_out_taken env id (some (q, rest)) s =
    let s' = drop_owner id (record s { queued = rest }) in
    try_dispatch env (record s' { out = s'.out ++ grant_error q (sched queue_timeout) ∷ [] })

unfoldable pub on_queue_timeout : Env → HandlerReq → Fifo → Fifo
unfolding time_out_taken
on_queue_timeout env req s = time_out_taken env req.id (take_id req.id s.queued) s

-- A granted request starts its proxy call, or learns that its grant is gone.
unfoldable pub on_proxy_start : ℕ → Fifo → Fifo
on_proxy_start model s =
    let held = ltb 0 (s.pending model) in
    let reply = proxy_reply model held in
    if held
    then record s {
      pending = update s.pending model (s.pending model - 1);
      http_in = update s.http_in model (s.http_in model + 1);
      out = s.out ++ reply ∷ [];
    }
    else record s { out = s.out ++ reply ∷ [] }

unfoldable pub give_back : ℕ → Fifo → Fifo
give_back model s =
    if ltb 0 (s.pending model)
    then record s { pending = update s.pending model (s.pending model - 1) }
    else s

unfoldable pub on_cancel_granted : Env → ℕ → Fifo → Fifo
unfolding give_back
on_cancel_granted env model s = try_dispatch env (give_back model s)

-- The end of a proxy call. When it was the last one, the model is quiet at this generation.
unfoldable pub end_serve : ℕ → Fifo → Fifo
end_serve model s =
    if ltb 0 (s.http_in model)
    then record s {
      http_in = update s.http_in model (s.http_in model - 1);
      unresolved = update s.unresolved model (s.unresolved model + 1);
      quiet_gen =
          if s.pending model == 0 && s.http_in model - 1 == 0
          then update s.quiet_gen model (s.dispatch_gen model)
          else s.quiet_gen;
    }
    else s

unfoldable pub on_serve_done : Env → ℕ → Fifo → Fifo
unfolding end_serve
on_serve_done env model s = try_dispatch env (end_serve model s)

-- `applyBackend`, and the body of OnStatus: the observed requests replace the count, and an idle
-- status that was asked for after the last call ended proves that call's end.
unfoldable pub apply_backend : ℕ → ℕ → ℕ → Fifo → Fifo
apply_backend model active proof s =
    let proved =
      active == 0
      && s.pending model == 0
      && s.http_in model == 0
      && not (proof == 0)
      && proof == s.dispatch_gen model
      && proof == s.quiet_gen model in
    record s {
      backend = update s.backend model active;
      unresolved = if proved then update s.unresolved model 0 else s.unresolved;
    }

unfoldable pub on_status : Env → StatusEvent → Fifo → Fifo
unfolding apply_backend
on_status env ev s =
    if is_fault ev.err
    then s
    else try_dispatch env (apply_backend ev.model_id ev.status.active_requests ev.gen s)

unfoldable pub on_backend_done : Env → ℕ → Fifo → Fifo
on_backend_done env model s = try_dispatch env (record s { backend = update s.backend model 0 })
