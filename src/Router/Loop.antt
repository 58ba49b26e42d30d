-- ===== src/Router/Loop.antt =====
-- internal/router/base.go and recover.go: what the router's loop does for each event, around the
-- scheduler's handler for it.
use infer_swap.Common.{
  ℕ, Bool, true, false, not, ◌&&◌, ◌||◌, Option, none, some, List, [], ◌∷◌, ◌==◌, ltb,
  if◌then◌else◌, update,
}
use infer_swap.Wire.{RecoveryClass, StatusErrKind, ApplyCode, applied, busy}
use infer_swap.Resource.Admit.{Snapshot}
use infer_swap.Sched.Types.{
  Fifo, Env, decider, RecoveryFacts, StatusEvent, ProbeNote, RecoverMode, drop, Fault, sched,
  shutdown,
}
use infer_swap.Sched.Handlers.{on_serve_done, on_status}
use infer_swap.Sched.Swaps.{on_unload_done, on_swap_done, on_shutdown}
use infer_swap.Sched.Notes.{
  recover_mode, forget_probe, note_probe, marker_cleared, sample_failed, is_endpoint_down,
}
use infer_swap.Router.State.{World, Router, with_entry, model_state}
use infer_swap.Router.Budget.{decide, eviction_for, is_marked, hold_residual, note_use, note_loaded}
use infer_swap.Router.Ledger.{
  RecoverEvent, snap_ledger, restore_ledger, ensure_peak, tentative, confirm_recover,
}
use infer_swap.Wire.{State, is_running}

unfoldable pub running_models : List (ℕ × State) → List (ℕ × State)
running_models [] = []
running_models ((id, st) ∷ rest) =
    let out = running_models rest in if is_running st then (id, st) ∷ out else out

unfoldable pub recovery_facts : World → Router → RecoveryFacts
recovery_facts w r = record {
  states = w.states;
  markers = λ id. is_marked r id;
  in_flight = w.in_flight;
}

-- The router as the scheduler's planner, effects and recovery host.
unfoldable pub env_of : World → Router → Env
env_of w r = record {
  model_state = model_state w;
  running_models = running_models w.states;
  planner = decider (eviction_for w r) (decide w r);
  recovery = some (recovery_facts w r);
  accepts = w.accepts;
  ctx_done = w.ctx_done;
  admit_takes = w.admit_takes;
  now = w.now;
}

-- One handler of the scheduler, in the surroundings that the router is then.
unfoldable pub scheduled : World → (Env → Fifo → Fifo) → Router → Router
scheduled w f r = record r { schedule = f (env_of w r) r.schedule }

unfoldable pub no_snapshot : Snapshot
no_snapshot = record {
  device_id = 0;
  total = 0;
  free = 0;
  used = 0;
  observed_at = 0;
  valid = false;
}

-- The markers that a sample taken at a time is later than, and the others.
unfoldable pub cleared_by : ℕ → List (ℕ × ℕ) → List ℕ
cleared_by observed [] = []
cleared_by observed ((id, at) ∷ ms) =
    let rest = cleared_by observed ms in if ltb at observed then id ∷ rest else rest

unfoldable pub kept_by : ℕ → List (ℕ × ℕ) → List (ℕ × ℕ)
kept_by observed [] = []
kept_by observed ((id, at) ∷ ms) =
    let rest = kept_by observed ms in if ltb at observed then rest else (id, at) ∷ rest

unfoldable pub hold_residuals : List ℕ → Router → Router
hold_residuals [] r = r
hold_residuals (id ∷ ids) r = hold_residuals ids (hold_residual id r)

unfoldable pub clear_markers : World → List ℕ → Router → Router
unfolding scheduled
clear_markers w [] r = r
clear_markers w (id ∷ ids) r =
    clear_markers w ids (scheduled w (λ env s. marker_cleared env id s) r)

unfoldable pub apply_observation : World → Snapshot → Router → Router
unfolding scheduled no_snapshot
apply_observation w snap r =
    if not snap.valid || not (snap.device_id == r.device)
    then scheduled w sample_failed (record r { snap = no_snapshot; boot_gpu = false })
    else let cleared = cleared_by snap.observed_at r.residual_after in
      clear_markers w cleared (
        hold_residuals cleared (record r {
          snap = snap;
          boot_gpu = true;
          residual_after = kept_by snap.observed_at r.residual_after;
        }))

-- `unloadNotice`.
pub record Notice : Type 0 where
  pub ids : List ℕ
  pub err : Option Fault
  pub sample : Snapshot
  pub at : ℕ

unfoldable pub mark_all : List ℕ → ℕ → List (ℕ × ℕ) → List (ℕ × ℕ)
mark_all [] at marks = marks
mark_all (id ∷ ids) at marks = mark_all ids at (with_entry id at marks)

abbrev pub unloaded_ok : Option Fault → Bool
unloaded_ok none = true
unloaded_ok (some e) = false

unfoldable pub finish_unload : World → Notice → Router → Router
unfolding scheduled
finish_unload w n r =
    let r' =
      if unloaded_ok n.err
      then apply_observation w n.sample
          (record r { residual_after = mark_all n.ids n.at r.residual_after })
      else r in
    scheduled w (λ env s. on_unload_done env n.err s) r'

-- The case of a finished load: the reservation is kept, and the next load may be admitted.
unfoldable pub swap_done : World → ℕ → Option Fault → Router → Router
unfolding scheduled
swap_done w model err r =
    let r₁ = if unloaded_ok err then note_loaded w model r else r in
    let r₂ = record r₁ { load_serial = if r₁.load_serial == model then 0 else r₁.load_serial } in
    scheduled w (λ env s. on_swap_done env model err s) r₂

unfoldable pub serve_done : World → ℕ → Router → Router
unfolding scheduled
serve_done w model r = scheduled w (λ env s. on_serve_done env model s) (note_use w model r)

unfoldable pub status_in : World → StatusEvent → Router → Router
unfolding scheduled
status_in w ev r =
    scheduled w (λ env s. on_status env ev s)
      (record r {
        last_status =
            if unloaded_ok ev.err
            then update r.last_status ev.model_id (some ev.status)
            else r.last_status;
      })

-- `finishShutdown`.
unfoldable pub finish_shutdown : Router → Router
finish_shutdown r = record r { schedule = on_shutdown (sched shutdown) r.schedule }

-- What `applyClient` comes back with: the client's ack, with a shutdown that came meanwhile, or a
-- shutdown that came before the client took the request.
pub data Applied : Type 0 where
  acked : ApplyCode → Bool → Applied
  shut_first : Applied

abbrev pub is_applied : ApplyCode → Bool
is_applied applied = true
is_applied _ = false

abbrev pub is_busy : ApplyCode → Bool
is_busy busy = true
is_busy _ = false

abbrev pub is_status : StatusErrKind → Bool
is_status StatusErrKind.no_error = true
is_status _ = false

abbrev pub is_invalid : RecoveryClass → Bool
is_invalid RecoveryClass.invalid = true
is_invalid _ = false

abbrev pub is_drop : RecoverMode → Bool
is_drop drop = true
is_drop _ = false

-- The client is asked only about a status that the matrix knows.
unfoldable pub calls_client : RecoverEvent → Bool
calls_client ev = is_status ev.kind && not (is_invalid ev.class)

abbrev pub note_of : RecoverEvent → RecoverMode → ApplyCode → Bool → ProbeNote
note_of ev mode code done = record {
  token = ev.token;
  model = ev.model;
  mode = mode;
  class = ev.class;
  kind = ev.kind;
  ack = code;
  active = ev.status.active_requests;
  proof_gen = ev.proof_gen;
  applied = done;
}

-- The ledger once the client has answered: confirmed, or as it was before the probe.
unfoldable pub settle : World → RecoverEvent → ApplyCode → Router → Router → Router
settle w ev code before r =
    if is_applied code
    then confirm_recover w ev r
    else restore_ledger ev.model (snap_ledger ev.model before) r

unfoldable pub after_ack :
    World → RecoverEvent → RecoverMode → ApplyCode → Bool → Router → Router → Router
unfolding settle scheduled finish_shutdown
after_ack w ev mode code shut before r =
    let r₁ = settle w ev code before r in
    let r₂ = if is_busy code then ensure_peak ev.model r₁ else r₁ in
    if shut
    then finish_shutdown r₁
    else scheduled w (λ env s. note_probe env (note_of ev mode code (is_applied code)) s) r₂

unfoldable pub after_apply : World → RecoverEvent → RecoverMode → Applied → Router → Router → Router
unfolding after_ack finish_shutdown
after_apply w ev mode (acked code shut) before r = after_ack w ev mode code shut before r
after_apply w ev mode shut_first before r =
    finish_shutdown (restore_ledger ev.model (snap_ledger ev.model before) r)

-- An event of a mode that is not dropped. `w` is the world once the client has answered.
unfoldable pub recover_live : World → RecoverEvent → RecoverMode → Applied → Router → Router
unfolding after_apply scheduled
recover_live w ev mode ans r =
    let r' = if is_endpoint_down ev.kind then r else tentative ev r in
    if calls_client ev
    then after_apply w ev mode ans r r'
    else scheduled w (λ env s. note_probe env (note_of ev mode applied false) s) r'

unfoldable pub on_recover : World → RecoverEvent → Applied → Router → Router
unfolding recover_live
on_recover w ev ans r =
    let mode = recover_mode r.schedule ev.token in
    if is_drop mode
    then record r { schedule = forget_probe ev.model r.schedule }
    else recover_live w ev mode ans r
