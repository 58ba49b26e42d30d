-- ===== src/Router/Applied.antt =====
-- internal/router/recover.go: the ledger after a probe that the client has applied.
use infer_swap.Common.{
  ℕ, Bool, true, false, ◌≡◌, refl, ◌∙◌, ap, inl, inr, Option, none, some, ltb, arith, lookup,
  Option-cases, if◌then◌else◌,
}
use infer_swap.Wire.{RecoveryClass, ApplyCode, StatusErrKind}
use infer_swap.Router.State.{Model, load_bound, World, Router, without}
use infer_swap.Router.Budget.{reserve, note_recovered_ready}
use infer_swap.Router.Ledger.{
  RecoverEvent, ensure_peak, ensure_peak_of, confirm_recover, holds_peak, mark_residual, tentative,
  tentative_class,
}
use infer_swap.Sched.Types.{RecoverMode}
use infer_swap.Sched.Notes.{recover_mode, is_endpoint_down}
use infer_swap.Router.Loop.{
  acked, calls_client, after_ack, after_apply, settle, scheduled, finish_shutdown, recover_live,
  on_recover, is_drop, is_status,
}
use infer_swap.Router.Rollback.{lookup-without}

-- The marker that a class leaves: none once the model is seen idle and ready, the later of the old
-- one and the time of the probe once it is seen gone, and the old one otherwise.
unfoldable pub latest : ℕ → Option ℕ → ℕ
latest at none = at
latest at (some prev) = if ltb prev at then at else prev

unfoldable pub marker_after : RecoveryClass → ℕ → Option ℕ → Option ℕ
marker_after RecoveryClass.ready_idle at o = none
marker_after RecoveryClass.unloaded_idle at o = some (latest at o)
marker_after RecoveryClass.failed_not_resident_idle at o = some (latest at o)
marker_after _ at o = o

ensure_peak-holds :
    (id : ℕ) (r : Router) (m : Model)
    → lookup id r.models ≡ some m
    → (holds_peak (load_bound m) ((ensure_peak id r).reserved id) ≡ true)
      × ((ensure_peak id r).residual_after ≡ r.residual_after)
unfolding ensure_peak ensure_peak_of reserve
ensure_peak-holds id r m o = (ground arith, ground arith)

ensure_peak_marks : (id : ℕ) (r : Router) → (ensure_peak id r).residual_after ≡ r.residual_after
unfolding ensure_peak ensure_peak_of reserve
ensure_peak_marks id r = elim (Option-cases (lookup id r.models)) [
  | inl o ↦ ground arith
  | inr (m, o) ↦ ground arith
]

mark_residual_lem :
    (id at : ℕ) (r : Router)
    → (lookup id (mark_residual id at r).residual_after
        ≡ some (latest at (lookup id r.residual_after)))
      × ((mark_residual id at r).reserved ≡ r.reserved)
unfolding mark_residual latest
mark_residual_lem id at r = elim (Option-cases (lookup id r.residual_after)) [
  | inl o ↦ (ground arith, ground arith)
  | inr (m, o) ↦ (ground arith, ground arith)
]

-- What a class of probe does to the entry of its model.
abbrev pub Probed : RecoveryClass → RecoverEvent → Model → Router → Router → Type 0
Probed c ev m r t =
    (holds_peak (load_bound m) (t.reserved ev.model) ≡ true)
    × (lookup ev.model t.residual_after
        ≡ marker_after c ev.completed_at (lookup ev.model r.residual_after))

marked-Probed :
    (ev : RecoverEvent) (r : Router) (m : Model)
    → lookup ev.model r.models ≡ some m
    → let t = mark_residual ev.model ev.completed_at (ensure_peak ev.model r) in
      (holds_peak (load_bound m) (t.reserved ev.model) ≡ true)
      × (lookup ev.model t.residual_after
          ≡ some (latest ev.completed_at (lookup ev.model r.residual_after)))
marked-Probed ev r m o =
    let p = ensure_peak-holds ev.model r m o in
    let q = mark_residual_lem ev.model ev.completed_at (ensure_peak ev.model r) in
    (
      (ap (λ f. holds_peak (load_bound m) (f ev.model)) q.1) ∙ p.0,
      q.0 ∙ ap (λ ms. some (latest ev.completed_at (lookup ev.model ms))) p.1,
    )

peaked :
    (ev : RecoverEvent) (r : Router) (m : Model)
    → lookup ev.model r.models ≡ some m
    → (holds_peak (load_bound m) ((ensure_peak ev.model r).reserved ev.model) ≡ true)
      × (lookup ev.model (ensure_peak ev.model r).residual_after ≡ lookup ev.model r.residual_after)
peaked ev r m o = let p = ensure_peak-holds ev.model r m o in (p.0, ap (lookup ev.model) p.1)

tentative_class-Probed :
    (c : RecoveryClass) (ev : RecoverEvent) (r : Router) (m : Model)
    → lookup ev.model r.models ≡ some m
    → Probed c ev m r (tentative_class c ev r)
unfolding tentative_class marker_after
tentative_class-Probed RecoveryClass.ready_idle ev r m o =
    let gone = record r { residual_after = without ev.model r.residual_after } in
    let p = ensure_peak-holds ev.model gone m o in
    (
      p.0,
      ap (lookup ev.model) p.1 ∙ ground (arith, lookup-without ev.model ev.model r.residual_after),
    )
tentative_class-Probed RecoveryClass.unloaded_idle ev r m o = marked-Probed ev r m o
tentative_class-Probed RecoveryClass.failed_not_resident_idle ev r m o = marked-Probed ev r m o
tentative_class-Probed RecoveryClass.invalid ev r m o = peaked ev r m o
tentative_class-Probed RecoveryClass.ready_busy ev r m o = peaked ev r m o
tentative_class-Probed RecoveryClass.failed_not_resident_busy ev r m o = peaked ev r m o
tentative_class-Probed RecoveryClass.failed_occupied ev r m o = peaked ev r m o
tentative_class-Probed RecoveryClass.in_progress ev r m o = peaked ev r m o

recover_live-Probed :
    (w : World) (ev : RecoverEvent) (mode : RecoverMode) (shut : Bool) (r : Router) (m : Model)
    → lookup ev.model r.models ≡ some m
    → is_endpoint_down ev.kind ≡ false
    → calls_client ev ≡ true
    → Probed ev.class ev m r (recover_live w ev mode (acked ApplyCode.applied shut) r)
unfolding recover_live calls_client after_apply after_ack settle scheduled finish_shutdown
    confirm_recover note_recovered_ready tentative
recover_live-Probed w ev mode shut r m o d c =
    let p = tentative_class-Probed ev.class ev r m o in (ground (arith, p.0), ground (arith, p.1))

not_down : (k : StatusErrKind) → is_status k ≡ true → is_endpoint_down k ≡ false
not_down StatusErrKind.no_error h = refl
not_down StatusErrKind.endpoint_down h = cc
not_down StatusErrKind.other h = refl

asked_not_down : (ev : RecoverEvent) → calls_client ev ≡ true → is_endpoint_down ev.kind ≡ false
unfolding calls_client
asked_not_down ev c = not_down ev.kind (ground arith)

-- A probe of a configured model, not dropped, that asks the client and that the client applies
-- leaves the model's peak reserved, or more. The marker is gone if the model is idle and ready,
-- it is the later of the old one and the probe's time if the model is idle and its memory is
-- released, and it is the old one otherwise.
pub on_recover_applied :
    (w : World) (ev : RecoverEvent) (shut : Bool) (r : Router) (m : Model)
    → lookup ev.model r.models ≡ some m
    → is_drop (recover_mode r.schedule ev.token) ≡ false
    → calls_client ev ≡ true
    → let t = on_recover w ev (acked ApplyCode.applied shut) r in
      (holds_peak (load_bound m) (t.reserved ev.model) ≡ true)
      × (lookup ev.model t.residual_after
          ≡ marker_after ev.class ev.completed_at (lookup ev.model r.residual_after))
unfolding on_recover
on_recover_applied w ev shut r m o live c =
    let p =
      recover_live-Probed w ev (recover_mode r.schedule ev.token) shut r m o (asked_not_down ev c)
        c in
    (ground (arith, p.0), ground (arith, p.1))
