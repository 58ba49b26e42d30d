-- ===== src/Router/Inv/Probed.antt =====
-- internal/router/recover.go: a probe keeps the reservations what they are.
use infer_swap.Common.{
  ℕ, true, ◌≡◌, refl, ap, ◌∙◌, Option, ◌==◌, if-cases, if◌then◌else◌, arith, lookup, Option-cases,
  inl, inr,
}
use infer_swap.Wire.{RecoveryClass, ApplyCode}
use infer_swap.Sched.Types.{RecoverMode}
use infer_swap.Sched.Notes.{recover_mode, is_endpoint_down}
use infer_swap.Router.State.{World, Router, without}
use infer_swap.Router.Budget.{reserve, note_recovered_ready}
use infer_swap.Router.Ledger.{
  RecoverEvent, tentative, snap_ledger, restore_ledger, ensure_peak, ensure_peak_of, mark_residual,
  tentative_class, confirm_recover,
}
use infer_swap.Router.Loop.{
  scheduled, finish_shutdown, Applied, acked, shut_first, on_recover, recover_live, after_apply,
  after_ack, settle, is_drop, is_applied, is_busy, calls_client,
}
use infer_swap.Router.Inv.Booked.{
  is_held, IsBooked, same_key, ensure_peak-IsBooked, mark_residual-IsBooked,
}

-- Two routers that have the same models and serve the same load.
abbrev Alike : Router → Router → Type 0
Alike r t = (t.models ≡ r.models) × (t.load_serial ≡ r.load_serial)

ensure_peak-Alike : (id : ℕ) (r : Router) → Alike r (ensure_peak id r)
unfolding ensure_peak ensure_peak_of reserve
ensure_peak-Alike id r = elim (Option-cases (lookup id r.models)) [
  | inl o ↦ (ground arith, ground arith)
  | inr (m, o) ↦ (ground arith, ground arith)
]

mark_residual-Alike : (id at : ℕ) (r : Router) → Alike r (mark_residual id at r)
unfolding mark_residual
mark_residual-Alike id at r = (ground arith, ground arith)

marked-Alike : (id at : ℕ) (r : Router) → Alike r (mark_residual id at (ensure_peak id r))
marked-Alike id at r =
    let p = ensure_peak-Alike id r in
    let q = mark_residual-Alike id at (ensure_peak id r) in (q.0 ∙ p.0, q.1 ∙ p.1)

-- A probe of a class, tentatively.
abbrev Tried : Router → Router → Type 0
Tried r t = IsBooked t × Alike r t

peaked-Tried : (id : ℕ) (r : Router) → IsBooked r → Tried r (ensure_peak id r)
peaked-Tried id r h = (ensure_peak-IsBooked id r h, ensure_peak-Alike id r)

marked-Tried :
    (id at : ℕ) (r : Router) → IsBooked r → Tried r (mark_residual id at (ensure_peak id r))
marked-Tried id at r h =
    (mark_residual-IsBooked id at _ (ensure_peak-IsBooked id r h), marked-Alike id at r)

tentative_class-Tried :
    (c : RecoveryClass) (ev : RecoverEvent) (r : Router)
    → IsBooked r
    → Tried r (tentative_class c ev r)
unfolding tentative_class
tentative_class-Tried RecoveryClass.ready_idle ev r h =
    peaked-Tried ev.model (record r { residual_after = without ev.model r.residual_after }) h
tentative_class-Tried RecoveryClass.unloaded_idle ev r h = marked-Tried ev.model ev.completed_at r h
tentative_class-Tried RecoveryClass.failed_not_resident_idle ev r h =
    marked-Tried ev.model ev.completed_at r h
tentative_class-Tried RecoveryClass.invalid ev r h = peaked-Tried ev.model r h
tentative_class-Tried RecoveryClass.ready_busy ev r h = peaked-Tried ev.model r h
tentative_class-Tried RecoveryClass.failed_not_resident_busy ev r h = peaked-Tried ev.model r h
tentative_class-Tried RecoveryClass.failed_occupied ev r h = peaked-Tried ev.model r h
tentative_class-Tried RecoveryClass.in_progress ev r h = peaked-Tried ev.model r h

same_held :
    (id serial : ℕ) (f : ℕ → Option ℕ) → (serial == id) ≡ true → is_held (f serial) ≡ is_held (f id)
same_held id serial f h = let e : serial ≡ id = ground arith in ap (λ x. is_held (f x)) e

restore-IsBooked :
    (id : ℕ) (before r : Router)
    → IsBooked before
    → Tried before r
    → IsBooked (restore_ledger id (snap_ledger id before) r)
unfolding restore_ledger snap_ledger
restore-IsBooked id before r h (k, (ms, ls)) = (
  (λ j. ground (arith, h.0 id, k.0 j, same_key id j r.models, ap (lookup id) ms)),
  ground (arith, h.1, k.1, ls, same_held id before.load_serial before.reserved),
)

settle-IsBooked :
    (w : World) (ev : RecoverEvent) (code : ApplyCode) (before r : Router)
    → IsBooked before
    → Tried before r
    → IsBooked (settle w ev code before r)
unfolding settle confirm_recover note_recovered_ready
settle-IsBooked w ev code before r h k =
    if-cases IsBooked (is_applied code) (λ _. if-cases IsBooked _ (λ _. k.0) (λ _. k.0))
      (λ _. restore-IsBooked ev.model before r h k)

after_apply-IsBooked :
    (w : World) (ev : RecoverEvent) (mode : RecoverMode) (ans : Applied) (before r : Router)
    → IsBooked before
    → Tried before r
    → IsBooked (after_apply w ev mode ans before r)
unfolding after_apply after_ack finish_shutdown scheduled
after_apply-IsBooked w ev mode shut_first before r h k = restore-IsBooked ev.model before r h k
after_apply-IsBooked w ev mode (acked code shut) before r h k =
    let settled = settle-IsBooked w ev code before r h k in
    if-cases IsBooked shut (λ _. settled)
      (λ _.
        if-cases IsBooked (is_busy code) (λ _. ensure_peak-IsBooked ev.model _ settled)
          (λ _. settled))

pub on_recover-IsBooked :
    (w : World) (ev : RecoverEvent) (ans : Applied) (r : Router)
    → IsBooked r
    → IsBooked (on_recover w ev ans r)
unfolding on_recover recover_live scheduled tentative
on_recover-IsBooked w ev ans r h =
    if-cases IsBooked (is_drop (recover_mode r.schedule ev.token)) (λ _. h)
      (λ _.
        let tried : Tried r (if is_endpoint_down ev.kind then r else tentative ev r) =
          if-cases (Tried r) (is_endpoint_down ev.kind) (λ _. (h, (refl, refl)))
            (λ _. tentative_class-Tried ev.class ev r h) in
        if-cases IsBooked (calls_client ev) (λ _. after_apply-IsBooked w ev _ ans r _ h tried)
          (λ _. tried.0))
