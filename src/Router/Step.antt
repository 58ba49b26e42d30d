-- ===== src/Router/Step.antt =====
-- internal/router/base.go: New and the select of `run`, one event of the loop at a time.
use infer_swap.Common.{ℕ, true, false, ◌&&◌, Option, none, List, [], ◌==◌, if◌then◌else◌}
use infer_swap.Resource.Admit.{Snapshot, fresh}
use infer_swap.Sched.Types.{HandlerReq, StatusEvent, Fault}
use infer_swap.Sched.Handlers.{
  new, on_request, on_cancel, on_queue_timeout, on_proxy_start, on_cancel_granted, on_backend_done,
}
use infer_swap.Sched.Swaps.{on_remind}
use infer_swap.Router.State.{Model, World, Router, with_entry}
use infer_swap.Router.Budget.{admit_load}
use infer_swap.Router.Ledger.{RecoverEvent}
use infer_swap.Router.Loop.{
  no_snapshot, scheduled, Applied, Notice, apply_observation, finish_unload, swap_done, serve_done,
  status_in, finish_shutdown, on_recover,
}

-- What New is given: the configuration of the models, of the GPU and of the scheduler, and the first
-- sample with the time of its check. An observer that fails gives an invalid sample.
pub record Setup : Type 0 where
  pub models : List (ℕ × Model)
  pub margin : ℕ
  pub max_age : ℕ
  pub device : ℕ
  pub limits : ℕ → ℕ
  pub queue_size : ℕ
  pub drain_time : ℕ
  pub boot : Snapshot
  pub booted_at : ℕ

unfoldable pub new_router : Setup → Router
unfolding no_snapshot
new_router c =
    let usable = c.boot.device_id == c.device && fresh c.boot c.booted_at c.max_age in
    record {
      models = c.models;
      margin = c.margin;
      max_age = c.max_age;
      device = c.device;
      shutting = false;
      snap = if usable then c.boot else no_snapshot;
      boot_gpu = usable;
      reserved = λ _. none;
      last_use = λ _. 0;
      loaded_at = λ _. 0;
      load_serial = 0;
      residual_after = [];
      last_status = λ _. none;
      schedule = new c.limits c.queue_size c.drain_time;
    }

-- The cases of the select. `remind` and `released` are functions that reach the loop by syncCh:
-- a reminder, and the end of an unload at shutdown. `shut` is the start of Shutdown, which sets a
-- flag from outside of the loop.
pub data Event : Type 0 where
  shut : Event
  shutdown : Event
  request cancel queue_timeout : HandlerReq → Event
  unload_done : Notice → Event
  swap_end : ℕ → Option Fault → Event
  serve_end proxy_start cancel_granted backend_done : ℕ → Event
  status : StatusEvent → Event
  admit : ℕ → Event
  observe : Snapshot → Event
  recover : RecoverEvent → Applied → Event
  remind : Event
  released : ℕ → ℕ → Snapshot → Event

unfoldable pub router_step : World → Event → Router → Router
unfolding scheduled
router_step w Event.shut r = record r { shutting = true }
router_step w Event.shutdown r = finish_shutdown r
router_step w (Event.request req) r = scheduled w (λ env s. on_request env req s) r
router_step w (Event.cancel req) r = scheduled w (λ env s. on_cancel env req s) r
router_step w (Event.queue_timeout req) r = scheduled w (λ env s. on_queue_timeout env req s) r
router_step w (Event.unload_done n) r = finish_unload w n r
router_step w (Event.swap_end model err) r = swap_done w model err r
router_step w (Event.serve_end model) r = serve_done w model r
router_step w (Event.proxy_start model) r = scheduled w (λ env s. on_proxy_start model s) r
router_step w (Event.cancel_granted model) r =
    scheduled w (λ env s. on_cancel_granted env model s) r
router_step w (Event.backend_done model) r = scheduled w (λ env s. on_backend_done env model s) r
router_step w (Event.status ev) r = status_in w ev r
router_step w (Event.admit model) r = (admit_load w model r).0
router_step w (Event.observe snap) r = apply_observation w snap r
router_step w (Event.recover ev ans) r = on_recover w ev ans r
router_step w Event.remind r = scheduled w (λ env s. on_remind env s) r
router_step w (Event.released id at snap) r =
    apply_observation w snap (record r { residual_after = with_entry id at r.residual_after })

-- The routers that the loop can be in. Each event finds a world of its own.
pub data Running (c : Setup) : Router → Type 0 where
  booted : Running c (new_router c)
  next : {r : Router} (w : World) (e : Event) → Running c r → Running c (router_step w e r)
