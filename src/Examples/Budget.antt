-- ===== src/Examples/Budget.antt =====
-- A device of 100 bytes with three models, of which 1 and 2 are loaded.
use infer_swap.Common.{
  keys, ℕ, ◌+◌, ◌-◌, ◌^◌, true, false, ◌≡◌, ◌≢◌, refl, none, some, List, [], ◌∷◌, ◌==◌, arith, leb,
  lookup, contains, if◌then◌else◌,
}
use infer_swap.Wire.{State, WireState, Residency, RecoveryClass, StatusErrKind, ApplyCode, stale}
use infer_swap.Resource.Admit.{Snapshot, fits, fresh}
use infer_swap.Resource.Fits.{fits_exact}
use infer_swap.Resource.Overflow.{hold, fits_overflow}
use infer_swap.Sched.Types.{evicts, recover}
use infer_swap.Router.State.{model_state, load_bound, Model, load_bound, World, Router, model_state}
use infer_swap.Router.Budget.{
  decide, admit_load, state_ready, gpu_fresh, admit_without_evict, fits_if_rest_residual, fits_now,
  others_at_residual, oldest_resident, oldest, candidates,
}
use infer_swap.Router.Ledger.{RecoverEvent, holds_peak}
use infer_swap.Router.Loop.{acked, calls_client, is_drop, on_recover, apply_observation}
use infer_swap.Router.Decisions.{decide_victim}
use infer_swap.Router.Admission.{IsSmall}
use infer_swap.Router.Rollback.{on_recover_rollback}
use infer_swap.Router.Applied.{marker_after, on_recover_applied}
use infer_swap.Router.Observation.{residual_held, lasting, outdated, apply_observation_ledger}
use infer_swap.Sched.Notes.{recover_mode}
use infer_swap.Examples.Scheduler.{start}

fits_exact_example : fits 100 10 (hold 1 40 ∷ hold 2 50 ∷ []) ≡ leb (10 + 90) 100
fits_exact_example =
    fits_exact 100 10 (hold 1 40 ∷ hold 2 50 ∷ []) (omega arith) (omega arith)
      ((omega arith, refl, (omega arith, refl, tt)))

fits_overflow_example : fits 100 0 (hold 1 50 ∷ hold 2 (2 ^ 63 - 1) ∷ []) ≡ true
fits_overflow_example =
    fits_overflow 100 50 (2 ^ 63 - 1) (omega arith) (omega arith) (omega arith) (omega arith)

abbrev pub model : Model
model = record { load_peak = 40; inference_peak = 50; residual = 5 }

abbrev pub sample : Snapshot
sample = record {
  device_id = 9;
  total = 100;
  free = 20;
  used = 80;
  observed_at = 900;
  valid = true;
}

abbrev pub world : World
world = record {
  states = (1, State.ready) ∷ (2, State.ready) ∷ (3, State.stopped) ∷ [];
  in_flight = λ _. false;
  wall_now = 1_000;
  now = 1_000;
  accepts = λ _. true;
  ctx_done = λ _. false;
  admit_takes = λ _. true;
}

-- Model 1 holds its peak and was used last; model 2 has a residual marker.
abbrev router : Router
router = record {
  models = (1, model) ∷ (2, model) ∷ (3, model) ∷ [];
  margin = 10;
  max_age = 500;
  device = 9;
  shutting = false;
  snap = sample;
  boot_gpu = true;
  reserved = λ id. if id == 1 then some 50 else if id == 2 then some 5 else none;
  last_use = λ id. if id == 1 then 800 else 700;
  loaded_at = λ _. 600;
  load_serial = 0;
  residual_after = (2, 850) ∷ [];
  last_status = λ _. none;
  schedule = start;
}

-- Model 3 does not fit beside model 1.
abbrev full : Router
full = record router { residual_after = [] }

-- Both other models hold their residuals.
abbrev pub roomy : Router
roomy = record full {
  snap = record sample { free = 90 };
  reserved = λ id. if id == 3 then none else some 5;
}

abbrev victim : ℕ
victim = 2

abbrev no_others : List ℕ
no_others = []

full_evicts : decide world full 3 (1 ∷ 2 ∷ []) ≡ evicts (2 ∷ [])
unfolding decide model_state gpu_fresh fresh admit_without_evict fits_now fits fits_if_rest_residual
    load_bound others_at_residual oldest_resident oldest candidates
full_evicts = refl

decide_victim_example :
    (no_others ≡ [])
    × (contains 2 (1 ∷ 2 ∷ []) ≡ true)
    × (victim ≢ 3)
    × (state_ready (model_state world 2) ≡ true)
    × (gpu_fresh world full ≡ true)
    × (admit_without_evict world full 3 ≡ false)
    × (fits_if_rest_residual world full 3 ≡ true)
decide_victim_example = decide_victim world full 3 victim no_others (1 ∷ 2 ∷ []) full_evicts

one_ready : state_ready (model_state world 1) ≡ true
unfolding model_state
one_ready = refl

roomy-IsSmall : IsSmall roomy
unfolding load_bound
roomy-IsSmall = (
  omega arith,
  omega arith,
  omega arith,
  (omega arith, omega arith, (omega arith, omega arith, (omega arith, omega arith, tt))),
  λ j. ground arith,
)

roomy_admits : (admit_load world 3 roomy).1 ≡ none
unfolding admit_load gpu_fresh fresh admit_without_evict fits_now fits load_bound
roomy_admits = refl

-- A probe of model 2 that finds it unloaded, while its recovery is under way.
abbrev probe : RecoverEvent
probe = record {
  token = 6;
  model = 2;
  gen = 4;
  completed_at = 990;
  status = record {
    state = WireState.unloaded;
    residency = Residency.not_resident;
    active_requests = 0;
    last_error = none;
  };
  kind = StatusErrKind.no_error;
  class = RecoveryClass.unloaded_idle;
  proof_gen = 3;
}

abbrev recovering : Router
recovering = record router { schedule = record start { phase = recover; recover_token = 6 } }

probe_asks : calls_client probe ≡ true
unfolding calls_client
probe_asks = refl

probe_live : is_drop (recover_mode recovering.schedule probe.token) ≡ false
unfolding recover_mode
probe_live = refl

on_recover_rollback_example :
    let t = on_recover world probe (acked stale false) recovering in
    (t.reserved 2 ≡ recovering.reserved 2)
    × (lookup 2 t.residual_after ≡ lookup 2 recovering.residual_after)
on_recover_rollback_example =
    on_recover_rollback world probe (acked stale false) recovering probe_asks refl 2

on_recover_applied_example :
    let t = on_recover world probe (acked ApplyCode.applied false) recovering in
    (holds_peak (load_bound model) (t.reserved 2) ≡ true)
    × (lookup 2 t.residual_after ≡ marker_after RecoveryClass.unloaded_idle 990 (some 850))
on_recover_applied_example =
    on_recover_applied world probe false recovering model refl probe_live probe_asks

apply_observation_ledger_example :
    let t = apply_observation world sample router in
    (t.snap ≡ sample)
    × (t.residual_after ≡ lasting 900 router.residual_after)
    × ((j : ℕ)
        → t.reserved j
          ≡ residual_held
              (keys (outdated 900 router.residual_after))
              j
              (lookup j router.models)
              (router.reserved j))
apply_observation_ledger_example = apply_observation_ledger world sample router refl refl
