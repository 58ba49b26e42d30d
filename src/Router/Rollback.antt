-- ===== src/Router/Rollback.antt =====
-- internal/router/recover.go: the ledger moves only for a probe that the client has applied.
use infer_swap.Common.{
  ℕ, Bool, true, false, not, ◌&&◌, ◌||◌, ◌≡◌, ◌≢◌, refl, sym, subst, ◌∙◌, inl, inr, Option, none,
  some, List, [], ◌∷◌, ◌==◌, arith, lookup, if-cases, Bool-cases, update, if◌then◌else◌,
}
use infer_swap.Wire.{RecoveryClass, ApplyCode}
use infer_swap.Router.State.{World, Router, without}
use infer_swap.Router.Ledger.{
  RecoverEvent, snap_ledger, restore_ledger, restored_marks, ensure_peak, mark_residual, tentative,
  tentative_class,
}
use infer_swap.Sched.Types.{RecoverMode}
use infer_swap.Sched.Notes.{recover_mode, is_endpoint_down}
use infer_swap.Router.Loop.{
  Applied, acked, shut_first, is_applied, is_busy, calls_client, after_ack, after_apply, settle,
  scheduled, finish_shutdown, recover_live, on_recover, is_drop, is_status, is_invalid,
}

pub lookup-without :
    {V : Type 0} (id j : ℕ) (m : List (ℕ × V))
    → lookup j (without id m) ≡ (if id == j then none else lookup j m)
lookup-without id j [] = ground arith
lookup-without id j ((k, v) ∷ m) = ground (arith, lookup-without id j m)

-- Two routers whose ledgers agree but at one model.
abbrev AgreeBut : ℕ → Router → Router → Type 0
AgreeBut id r t =
    (j : ℕ)
    → j ≢ id
    → (t.reserved j ≡ r.reserved j) × (lookup j t.residual_after ≡ lookup j r.residual_after)

ensure_peak-AgreeBut : (id : ℕ) (r : Router) → AgreeBut id r (ensure_peak id r)
unfolding ensure_peak
ensure_peak-AgreeBut id r j n = (ground arith, ground arith)

mark_residual-AgreeBut : (id at : ℕ) (r : Router) → AgreeBut id r (mark_residual id at r)
unfolding mark_residual
mark_residual-AgreeBut id at r j n =
    (ground arith, ground (arith, lookup-without id j r.residual_after))

mark_after : (id at : ℕ) (r : Router) → AgreeBut id r (mark_residual id at (ensure_peak id r))
mark_after id at r j n =
    let p = ensure_peak-AgreeBut id r j n in
    let q = mark_residual-AgreeBut id at (ensure_peak id r) j n in (q.0 ∙ p.0, q.1 ∙ p.1)

peak_after :
    (id : ℕ) (s r : Router) (j : ℕ)
    → j ≢ id
    → s.reserved j ≡ r.reserved j
    → lookup j s.residual_after ≡ lookup j r.residual_after
    → ((ensure_peak id s).reserved j ≡ r.reserved j)
      × (lookup j (ensure_peak id s).residual_after ≡ lookup j r.residual_after)
peak_after id s r j n a b = let p = ensure_peak-AgreeBut id s j n in (p.0 ∙ a, p.1 ∙ b)

tentative_class-AgreeBut :
    (c : RecoveryClass) (ev : RecoverEvent) (r : Router)
    → AgreeBut ev.model r (tentative_class c ev r)
unfolding tentative_class
tentative_class-AgreeBut RecoveryClass.ready_idle ev r j n =
    peak_after ev.model (record r { residual_after = without ev.model r.residual_after }) r j n refl
      (ground (arith, lookup-without ev.model j r.residual_after))
tentative_class-AgreeBut RecoveryClass.unloaded_idle ev r j n =
    mark_after ev.model ev.completed_at r j n
tentative_class-AgreeBut RecoveryClass.failed_not_resident_idle ev r j n =
    mark_after ev.model ev.completed_at r j n
tentative_class-AgreeBut RecoveryClass.invalid ev r j n = ensure_peak-AgreeBut ev.model r j n
tentative_class-AgreeBut RecoveryClass.ready_busy ev r j n = ensure_peak-AgreeBut ev.model r j n
tentative_class-AgreeBut RecoveryClass.failed_not_resident_busy ev r j n =
    ensure_peak-AgreeBut ev.model r j n
tentative_class-AgreeBut RecoveryClass.failed_occupied ev r j n =
    ensure_peak-AgreeBut ev.model r j n
tentative_class-AgreeBut RecoveryClass.in_progress ev r j n = ensure_peak-AgreeBut ev.model r j n

tentative-AgreeBut : (ev : RecoverEvent) (r : Router) → AgreeBut ev.model r (tentative ev r)
unfolding tentative
tentative-AgreeBut ev r = tentative_class-AgreeBut ev.class ev r

restored_marks-here :
    (id : ℕ) (o : Option ℕ) (marks : List (ℕ × ℕ)) → lookup id (restored_marks id o marks) ≡ o
unfolding restored_marks
restored_marks-here id none marks = ground (arith, lookup-without id id marks)
restored_marks-here id (some at) marks = ground arith

restored_marks-there :
    (id : ℕ) (o : Option ℕ) (marks : List (ℕ × ℕ)) (j : ℕ)
    → j ≢ id
    → lookup j (restored_marks id o marks) ≡ lookup j marks
unfolding restored_marks
restored_marks-there id none marks j n = ground (arith, lookup-without id j marks)
restored_marks-there id (some at) marks j n = ground (arith, lookup-without id j marks)

-- Two routers with the same reservations and the same markers.
abbrev pub SameLedger : Router → Router → Type 0
SameLedger r t =
    (j : ℕ)
    → (t.reserved j ≡ r.reserved j) × (lookup j t.residual_after ≡ lookup j r.residual_after)

restore-SameLedger :
    (id : ℕ) (r t : Router)
    → AgreeBut id r t
    → SameLedger r (restore_ledger id (snap_ledger id r) t)
unfolding restore_ledger snap_ledger
restore-SameLedger id r t h j = elim (Bool-cases (j == id)) [
  | inl same ↦
      let e : j ≡ id = ground arith in
      subst
        (λ x.
          (update t.reserved id (r.reserved id) x ≡ r.reserved x)
          × (lookup x (restored_marks id (lookup id r.residual_after) t.residual_after)
              ≡ lookup x r.residual_after))
        (sym e) (ground arith, restored_marks-here id (lookup id r.residual_after) t.residual_after)
  | inr other ↦
      let n : j ≢ id = ground arith in
      (
        ground (arith, (h j n).0),
        restored_marks-there id (lookup id r.residual_after) t.residual_after j n ∙ (h j n).1,
      )
]

-- The client did not apply the status, and did not say that it is busy; or a shutdown came.
abbrev pub is_unapplied : Applied → Bool
is_unapplied shut_first = true
is_unapplied (acked code shut) = not (is_applied code) && (not (is_busy code) || shut)

after_apply-SameLedger :
    (w : World) (ev : RecoverEvent) (mode : RecoverMode) (ans : Applied) (r t : Router)
    → AgreeBut ev.model r t
    → is_unapplied ans ≡ true
    → SameLedger r (after_apply w ev mode ans r t)
unfolding after_apply after_ack settle scheduled finish_shutdown
after_apply-SameLedger w ev mode shut_first r t h u = restore-SameLedger ev.model r t h
after_apply-SameLedger w ev mode (acked ApplyCode.applied shut) r t h u = cc
after_apply-SameLedger w ev mode (acked ApplyCode.busy false) r t h u = cc
after_apply-SameLedger w ev mode (acked ApplyCode.busy true) r t h u =
    restore-SameLedger ev.model r t h
after_apply-SameLedger w ev mode (acked ApplyCode.stale false) r t h u =
    restore-SameLedger ev.model r t h
after_apply-SameLedger w ev mode (acked ApplyCode.stale true) r t h u =
    restore-SameLedger ev.model r t h

recover_live-SameLedger :
    (w : World) (ev : RecoverEvent) (mode : RecoverMode) (ans : Applied) (r : Router)
    → calls_client ev ≡ true
    → is_unapplied ans ≡ true
    → SameLedger r (recover_live w ev mode ans r)
unfolding recover_live calls_client
recover_live-SameLedger w ev mode ans r c u =
    let asked : AgreeBut ev.model r (if is_endpoint_down ev.kind then r else tentative ev r) =
      if-cases (AgreeBut ev.model r) (is_endpoint_down ev.kind) (λ _ j n. (refl, refl))
        (λ _. tentative-AgreeBut ev r) in
    if-cases (SameLedger r) (is_status ev.kind && not (is_invalid ev.class))
      (λ _. after_apply-SameLedger w ev mode ans r _ asked u) (λ n. absurd (ground arith))

-- A probe that asks the client, and that the client does not apply and does not call busy, or that
-- a shutdown overtakes before it is applied, leaves every reservation and every residual marker as
-- they were before the probe.
pub on_recover_rollback :
    (w : World) (ev : RecoverEvent) (ans : Applied) (r : Router)
    → calls_client ev ≡ true
    → is_unapplied ans ≡ true
    → (j : ℕ)
    → ((on_recover w ev ans r).reserved j ≡ r.reserved j)
      × (lookup j (on_recover w ev ans r).residual_after ≡ lookup j r.residual_after)
unfolding on_recover
on_recover_rollback w ev ans r c u =
    if-cases (SameLedger r) (is_drop (recover_mode r.schedule ev.token)) (λ _ j. (refl, refl))
      (λ _. recover_live-SameLedger w ev (recover_mode r.schedule ev.token) ans r c u)
