-- ===== src/Examples/Loop.antt =====
-- A router that starts with all of its models stopped, and admits a load.
use infer_swap.Common.{◌^◌, ◌≤◌, ◌<◌, ◌≡◌, refl, none, [], ◌∷◌, arith}
use infer_swap.Wire.{State}
use infer_swap.Resource.Admit.{fresh, fits}
use infer_swap.Sched.Step.{Reachable}
use infer_swap.Router.State.{World, Router, load_bound, model_state}
use infer_swap.Router.Budget.{admit_load, gpu_fresh, admit_without_evict, fits_now}
use infer_swap.Router.Step.{Setup, new_router, Event, router_step, Running, booted, next}
use infer_swap.Router.Admission.{AreSmall, HasRoom}
use infer_swap.Router.Inv.Told.{Heard}
use infer_swap.Router.Inv.Schedule.{Running-Heard}
use infer_swap.Router.Loop.{Notice, mark_all}
use infer_swap.Sched.Step
use infer_swap.Router.Inv.Ledger.{admit_load-HasRoom}
use infer_swap.Examples.Budget.{model, sample, world}

abbrev setup : Setup
setup = record {
  models = (1, model) ∷ (2, model) ∷ (3, model) ∷ [];
  margin = 10;
  max_age = 500;
  device = 9;
  limits = λ _. 1;
  queue_size = 8;
  drain_time = 60_000;
  boot = record sample { free = 90 };
  booted_at = 950;
}

abbrev stopped : World
stopped = record world {
  states = (1, State.stopped) ∷ (2, State.stopped) ∷ (3, State.stopped) ∷ [];
}

abbrev new_one : Router
new_one = new_router setup

abbrev loading : Router
loading = router_step stopped (Event.admit 3) new_one

loading-Running : Running setup loading
loading-Running = next stopped (Event.admit 3) booted

abbrev unloaded : Notice
unloaded = record { ids = 2 ∷ []; err = none; sample = sample; at = 800 }

Running-Heard_example :
    Reachable loading.schedule
    × Heard stopped
        (Step.Event.marker_clear 2 ∷ Step.Event.unload_done none ∷ [])
        loading.schedule
        (router_step stopped (Event.unload_done unloaded) loading).schedule
unfolding router_step new_router admit_load mark_all gpu_fresh fresh admit_without_evict fits_now
    model_state fits load_bound
Running-Heard_example = Running-Heard loading-Running stopped (Event.unload_done unloaded)

new_admits : (admit_load stopped 3 new_one).1 ≡ none
unfolding new_router admit_load gpu_fresh fresh admit_without_evict fits_now fits load_bound
    model_state
new_admits = refl

serves_load : loading.load_serial ≡ 3
unfolding router_step new_router admit_load gpu_fresh fresh admit_without_evict fits_now fits
    load_bound model_state
serves_load = refl

new_small :
    (new_one.snap.free ≤ 2 ^ 62)
    × (new_one.snap.total ≤ 2 ^ 62)
    × (new_one.margin < 2 ^ 62)
    × AreSmall new_one.models
unfolding new_router fresh load_bound
new_small = (
  omega arith,
  omega arith,
  omega arith,
  (omega arith, omega arith, (omega arith, omega arith, (omega arith, omega arith, tt))),
)

admit_load-HasRoom_example : HasRoom stopped new_one 3
admit_load-HasRoom_example =
    admit_load-HasRoom stopped 3 booted new_small.0 new_small.1 new_small.2 new_small.3 new_admits
