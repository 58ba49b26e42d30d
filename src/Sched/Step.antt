-- ===== src/Sched/Step.antt =====
-- internal/router/base.go: the events that the router's loop hands to the scheduler, one at a time,
-- and the states that a sequence of them reaches.
use infer_swap.Common.{ℕ, Option}
use infer_swap.Sched.Types.{Fifo, Env, HandlerReq, StatusEvent, ProbeNote, Fault}
use infer_swap.Sched.Handlers.{
  new, on_request, on_cancel, on_queue_timeout, on_proxy_start, on_cancel_granted, on_serve_done,
  on_status, on_backend_done,
}
use infer_swap.Sched.Swaps.{on_unload_done, on_swap_done, on_remind, on_shutdown}
use infer_swap.Sched.Notes.{forget_probe, note_probe, marker_cleared, sample_failed}

pub data Event : Type 0 where
  request cancel queue_timeout : HandlerReq → Event
  proxy_start cancel_granted serve_done backend_done : ℕ → Event
  status : StatusEvent → Event
  unload_done : Option Fault → Event
  swap_done : ℕ → Option Fault → Event
  remind : Event
  shutdown : Fault → Event
  probe_dropped : ℕ → Event
  probe_done : ProbeNote → Event
  marker_clear : ℕ → Event
  sample_fail : Event

unfoldable pub step : Env → Event → Fifo → Fifo
step env (request req) s = on_request env req s
step env (cancel req) s = on_cancel env req s
step env (queue_timeout req) s = on_queue_timeout env req s
step env (proxy_start model) s = on_proxy_start model s
step env (cancel_granted model) s = on_cancel_granted env model s
step env (serve_done model) s = on_serve_done env model s
step env (backend_done model) s = on_backend_done env model s
step env (status ev) s = on_status env ev s
step env (unload_done err) s = on_unload_done env err s
step env (swap_done model err) s = on_swap_done env model err s
step env remind s = on_remind env s
step env (shutdown err) s = on_shutdown err s
step env (probe_dropped model) s = forget_probe model s
step env (probe_done n) s = note_probe env n s
step env (marker_clear id) s = marker_cleared env id s
step env sample_fail s = sample_failed env s

-- The states that a scheduler can be in. Each event has its own surroundings.
pub data Reachable : Fifo → Type 0 where
  initial :
      (limits : ℕ → ℕ) (queue_size drain_time : ℕ) → Reachable (new limits queue_size drain_time)
  after : {s : Fifo} (env : Env) (e : Event) → Reachable s → Reachable (step env e s)
