-- ===== src/Router/Inv/Schedule.antt =====
-- internal/router/base.go and recover.go: which events of the scheduler each case of the loop
-- hands on, in which order, and that it does nothing else to the scheduler.
use infer_swap.Common.{
  ℕ, Bool, true, false, ◌&&◌, keys, not, ◌||◌, ◌++◌, ◌≡◌, refl, subst, sym, Option, none, some,
  List, [], ◌∷◌, ◌==◌, if-cases, if◌then◌else◌, ◌∙◌,
}
use infer_swap.Resource.Admit.{Snapshot}
use infer_swap.Sched.Types.{Fifo, Fault, sched, RecoverMode}
use infer_swap.Sched.Types
use infer_swap.Sched.Step.{Reachable, initial, after, step}
use infer_swap.Sched.Step
use infer_swap.Sched.Notes.{recover_mode, is_endpoint_down}
use infer_swap.Router.State.{World, Router}
use infer_swap.Router.Budget.{note_use}
use infer_swap.Router.Ledger.{RecoverEvent, snap_ledger, tentative, restore_ledger}
use infer_swap.Router.Loop.{
  mark_all, scheduled, env_of, apply_observation, clear_markers, finish_unload, swap_done,
  serve_done, status_in, finish_shutdown, Applied, acked, shut_first, on_recover, recover_live,
  after_apply, after_ack, settle, is_drop, calls_client, is_busy, unloaded_ok, Notice,
}
use infer_swap.Router.Observation.{outdated, cleared_by-outdated}
use infer_swap.Router.Inv.Untouched.{
  Beside, hold_residuals-Beside, ensure_peak-Beside, tentative_class-Beside, settle-Beside,
  note_loaded-Beside, admit_load-Beside,
}
use infer_swap.Router.Inv.Told.{
  Heard, silence, hears, Heard-append, Heard-Reachable, markers_cleared, told_sample, told_shutdown,
  told_unload, told_ack, told_recover, told,
}
use infer_swap.Router.Step.{Setup, new_router, Event, router_step, Running, booted, next}

-- What holds of two choices by one test.
if-both :
    {A B : Type 0} (P : A → B → Type 0) (b : Bool) {x y : A} {u v : B}
    → (b ≡ true → P x u)
    → (b ≡ false → P y v)
    → P (if b then x else y) (if b then u else v)
if-both P true f g = f refl
if-both P false f g = g refl

if-not-and :
    {A : Type 0} (a b : Bool) (x y : A)
    → (if not a || not b then x else y) ≡ (if a && b then y else x)
if-not-and true true x y = refl
if-not-and true false x y = refl
if-not-and false b x y = refl

-- The scheduler of a router hears the events, and another router has it then.
abbrev Hears : World → Router → List Step.Event → Router → Type 0
Hears w r es t = Heard w es r.schedule t.schedule

scheduled-Hears :
    (w : World) (e : Step.Event) (r r' : Router)
    → Beside r r'
    → Hears w r (e ∷ []) (scheduled w (λ env s. step env e s) r')
unfolding scheduled
scheduled-Hears w e r r' same =
    subst (λ s. Heard w (e ∷ []) s (step (env_of w r') e r'.schedule)) same (hears r' e silence)

finish_shutdown-Hears :
    (w : World) (r r' : Router) → Beside r r' → Hears w r told_shutdown (finish_shutdown r')
unfolding finish_shutdown step
finish_shutdown-Hears w r r' same =
    subst (λ s. Heard w told_shutdown s (finish_shutdown r').schedule) same
      (hears r' (Step.Event.shutdown (sched Types.shutdown)) silence)

clear_markers-Hears :
    (w : World) (ids : List ℕ) (r : Router)
    → Hears w r (markers_cleared ids) (clear_markers w ids r)
unfolding clear_markers scheduled step
clear_markers-Hears w [] r = silence
clear_markers-Hears w (id ∷ ids) r =
    hears r (Step.Event.marker_clear id) (clear_markers-Hears w ids _)

cleared-Hears :
    (w : World) (ids js : List ℕ) (r r' : Router)
    → ids ≡ js
    → Beside r r'
    → Hears w r (markers_cleared js) (clear_markers w ids r')
cleared-Hears w ids js r r' e same =
    subst (λ (l : List ℕ). Heard w (markers_cleared l) r.schedule (clear_markers w ids r').schedule)
      e
      (subst (λ s. Heard w (markers_cleared ids) s (clear_markers w ids r').schedule) same
        (clear_markers-Hears w ids r'))

apply_observation-Hears :
    (w : World) (snap : Snapshot) (r r' : Router)
    → Beside r r'
    → Hears w r (told_sample snap r'.device r'.residual_after) (apply_observation w snap r')
unfolding apply_observation step
apply_observation-Hears w snap r r' same =
    subst (λ es. Hears w r es (apply_observation w snap r'))
      (if-not-and snap.valid (snap.device_id == r'.device) (Step.Event.sample_fail ∷ [])
        (markers_cleared (keys (outdated snap.observed_at r'.residual_after))))
      (if-both (Hears w r) (not snap.valid || not (snap.device_id == r'.device))
        (λ _. scheduled-Hears w Step.Event.sample_fail r _ same)
        (λ _.
          cleared-Hears w _ _ r _ (cleared_by-outdated snap.observed_at r'.residual_after)
            (hold_residuals-Beside _ _ ∙ same)))

after_apply-Hears :
    (w : World) (ev : RecoverEvent) (ans : Applied) (before r : Router)
    → Beside before r
    → Hears w before
        (told_ack ev before ans)
        (after_apply w ev (recover_mode before.schedule ev.token) ans before r)
unfolding after_apply after_ack step restore_ledger
after_apply-Hears w ev shut_first before r same =
    finish_shutdown-Hears w before (restore_ledger ev.model (snap_ledger ev.model before) r) same
after_apply-Hears w ev (acked code shut) before r same =
    let settled = settle-Beside w ev code before r ∙ same in
    if-both (Hears w before) shut
      (λ _. finish_shutdown-Hears w before (settle w ev code before r) settled)
      (λ _. scheduled-Hears w (Step.Event.probe_done _) before _ (
        if-cases (Beside before) (is_busy code)
          (λ _. ensure_peak-Beside ev.model (settle w ev code before r) ∙ settled) (λ _. settled)))

on_recover-Hears :
    (w : World) (ev : RecoverEvent) (ans : Applied) (r : Router)
    → Hears w r (told_recover ev ans r) (on_recover w ev ans r)
unfolding on_recover recover_live step tentative
on_recover-Hears w ev ans r =
    if-both (Hears w r) (is_drop (recover_mode r.schedule ev.token))
      (λ _. hears r (Step.Event.probe_dropped ev.model) silence)
      (λ _.
        let probed : Beside r (if is_endpoint_down ev.kind then r else tentative ev r) =
          if-cases (Beside r) (is_endpoint_down ev.kind) (λ _. refl)
            (λ _. tentative_class-Beside ev.class ev r) in
        if-both (Hears w r) (calls_client ev) (λ _. after_apply-Hears w ev ans r _ probed)
          (λ _. scheduled-Hears w (Step.Event.probe_done _) r _ probed))

-- The router when the end of an unload is told to the scheduler.
abbrev unload_noted : World → Option Fault → Notice → Router → Router
unload_noted w err n r =
    if unloaded_ok err
    then apply_observation w n.sample
        (record r { residual_after = mark_all n.ids n.at r.residual_after })
    else r

unload_noted-Hears :
    (w : World) (err : Option Fault) (n : Notice) (r : Router)
    → Hears w r (told_unload err n r) (unload_noted w err n r)
unload_noted-Hears w none n r = apply_observation-Hears w n.sample r _ refl
unload_noted-Hears w (some e) n r = silence

finish_unload-Hears :
    (w : World) (n : Notice) (r : Router)
    → Hears w r (told_unload n.err n r ++ Step.Event.unload_done n.err ∷ []) (finish_unload w n r)
unfolding finish_unload step
finish_unload-Hears w n r = Heard-append w (unload_noted-Hears w n.err n r) (
    scheduled-Hears w (Step.Event.unload_done n.err) (unload_noted w n.err n r)
      (unload_noted w n.err n r) refl)

swap_done-Hears :
    (w : World) (model : ℕ) (err : Option Fault) (r : Router)
    → Hears w r (Step.Event.swap_done model err ∷ []) (swap_done w model err r)
unfolding swap_done step
swap_done-Hears w model err r =
    scheduled-Hears w (Step.Event.swap_done model err) r _
      (if-cases (Beside r) (unloaded_ok err) (λ _. note_loaded-Beside w model r) (λ _. refl))

router_step-Hears : (w : World) (e : Event) (r : Router) → Hears w r (told e r) (router_step w e r)
unfolding router_step scheduled step serve_done note_use status_in
router_step-Hears w Event.shut r = silence
router_step-Hears w Event.shutdown r = finish_shutdown-Hears w r r refl
router_step-Hears w (Event.request req) r = hears r (Step.Event.request req) silence
router_step-Hears w (Event.cancel req) r = hears r (Step.Event.cancel req) silence
router_step-Hears w (Event.queue_timeout req) r = hears r (Step.Event.queue_timeout req) silence
router_step-Hears w (Event.unload_done n) r = finish_unload-Hears w n r
router_step-Hears w (Event.swap_end model err) r = swap_done-Hears w model err r
router_step-Hears w (Event.serve_end model) r = hears _ (Step.Event.serve_done model) silence
router_step-Hears w (Event.proxy_start model) r = hears r (Step.Event.proxy_start model) silence
router_step-Hears w (Event.cancel_granted model) r =
    hears r (Step.Event.cancel_granted model) silence
router_step-Hears w (Event.backend_done model) r = hears r (Step.Event.backend_done model) silence
router_step-Hears w (Event.status ev) r = hears _ (Step.Event.status ev) silence
router_step-Hears w (Event.admit model) r =
    subst (λ s. Heard w [] r.schedule s) (sym (admit_load-Beside w model r)) silence
router_step-Hears w (Event.observe snap) r = apply_observation-Hears w snap r r refl
router_step-Hears w (Event.recover ev ans) r = on_recover-Hears w ev ans r
router_step-Hears w Event.remind r = hears r Step.Event.remind silence
router_step-Hears w (Event.released id at snap) r = apply_observation-Hears w snap r _ refl

Running-Reachable : {c : Setup} {r : Router} → Running c r → Reachable r.schedule
unfolding new_router
Running-Reachable booted = initial _ _ _
Running-Reachable (next {r} w e run) =
    Heard-Reachable w (router_step-Hears w e r) (Running-Reachable run)

-- The scheduler of every router that the loop can be in is in a reachable state of the scheduler, and
-- each event of the loop hands on to it exactly the scheduler's events that `told` lists, in that
-- order, each in the surroundings of some router that holds the scheduler then: for a sample, each
-- marker that it clears or its failure; for the end of an unload, those of its sample if it went well,
-- and then that end; for a probe, that it is dropped, or its note, or the shutdown that overtakes it;
-- none for an admission or the start of a shutdown; and for any other event the one of its name.
pub Running-Heard :
    {c : Setup} {r : Router}
    → Running c r
    → (w : World) (e : Event)
    → Reachable r.schedule × Heard w (told e r) r.schedule (router_step w e r).schedule
Running-Heard {r = r} run w e = (Running-Reachable run, router_step-Hears w e r)
