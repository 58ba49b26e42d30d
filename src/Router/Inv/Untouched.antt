-- ===== src/Router/Inv/Untouched.antt =====
-- internal/router/base.go, budget.go and recover.go: the ledger is kept without a call of the scheduler.
use infer_swap.Common.{
  ℕ, ◌≡◌, refl, Option, none, some, List, [], ◌∷◌, arith, ◌∙◌, lookup, Option-cases, inl, inr,
}
use infer_swap.Wire.{RecoveryClass, ApplyCode}
use infer_swap.Router.State.{World, Router, Model, without}
use infer_swap.Router.Budget.{
  admit_load, reserve_load, reserve, reserve_known, hold_residual, note_loaded,
  note_recovered_ready,
}
use infer_swap.Router.Ledger.{
  RecoverEvent, restore_ledger, ensure_peak, ensure_peak_of, mark_residual, tentative_class,
  confirm_recover,
}
use infer_swap.Router.Loop.{hold_residuals, settle}

-- Two routers with the same scheduler.
abbrev pub Beside : Router → Router → Type 0
Beside r t = t.schedule ≡ r.schedule

pub hold_residuals-Beside : (ids : List ℕ) (r : Router) → Beside r (hold_residuals ids r)
unfolding hold_residuals hold_residual reserve_known reserve
hold_residuals-Beside [] r = refl
hold_residuals-Beside (id ∷ ids) r = hold_residuals-Beside ids _ ∙ held (lookup id r.models)
  where
    held : (o : Option Model) → (reserve_known id (λ m. m.residual) o r).schedule ≡ r.schedule
    held none = refl
    held (some m) = refl

pub ensure_peak-Beside : (id : ℕ) (r : Router) → Beside r (ensure_peak id r)
unfolding ensure_peak ensure_peak_of reserve
ensure_peak-Beside id r = elim (Option-cases (lookup id r.models)) [
  | inl o ↦ ground arith
  | inr (m, o) ↦ ground arith
]

pub mark_residual-Beside : (id at : ℕ) (r : Router) → Beside r (mark_residual id at r)
unfolding mark_residual
mark_residual-Beside id at r = ground arith

pub tentative_class-Beside :
    (c : RecoveryClass) (ev : RecoverEvent) (r : Router) → Beside r (tentative_class c ev r)
unfolding tentative_class
tentative_class-Beside RecoveryClass.ready_idle ev r =
    ensure_peak-Beside ev.model (record r { residual_after = without ev.model r.residual_after })
tentative_class-Beside RecoveryClass.unloaded_idle ev r =
    mark_residual-Beside ev.model ev.completed_at (ensure_peak ev.model r)
    ∙ ensure_peak-Beside ev.model r
tentative_class-Beside RecoveryClass.failed_not_resident_idle ev r =
    mark_residual-Beside ev.model ev.completed_at (ensure_peak ev.model r)
    ∙ ensure_peak-Beside ev.model r
tentative_class-Beside RecoveryClass.invalid ev r = ensure_peak-Beside ev.model r
tentative_class-Beside RecoveryClass.ready_busy ev r = ensure_peak-Beside ev.model r
tentative_class-Beside RecoveryClass.failed_not_resident_busy ev r = ensure_peak-Beside ev.model r
tentative_class-Beside RecoveryClass.failed_occupied ev r = ensure_peak-Beside ev.model r
tentative_class-Beside RecoveryClass.in_progress ev r = ensure_peak-Beside ev.model r

pub settle-Beside :
    (w : World) (ev : RecoverEvent) (code : ApplyCode) (before r : Router)
    → Beside r (settle w ev code before r)
unfolding settle confirm_recover note_recovered_ready restore_ledger
settle-Beside w ev code before r = ground arith

pub note_loaded-Beside : (w : World) (id : ℕ) (r : Router) → Beside r (note_loaded w id r)
unfolding note_loaded reserve_known reserve
note_loaded-Beside w id r = elim (Option-cases (lookup id r.models)) [
  | inl o ↦ ground arith
  | inr (m, o) ↦ ground arith
]

pub admit_load-Beside : (w : World) (id : ℕ) (r : Router) → Beside r (admit_load w id r).0
unfolding admit_load reserve_load reserve
admit_load-Beside w id r = elim (Option-cases (lookup id r.models)) [
  | inl o ↦ ground arith
  | inr (m, o) ↦ ground arith
]
