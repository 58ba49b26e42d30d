-- ===== src/Router/Ledger.antt =====
-- internal/router/recover.go: the ledger of reservations while a recovery probe is being applied.
use infer_swap.Common.{
  ℕ, Bool, true, false, Option, none, some, List, ltb, if◌then◌else◌, lookup, update, sle,
}
use infer_swap.Wire.{
  Status, RecoveryClass, ready_idle, unloaded_idle, failed_not_resident_idle, StatusErrKind,
}
use infer_swap.Router.State.{Model, load_bound, World, Router, without, with_entry}
use infer_swap.Router.Budget.{reserve, note_recovered_ready}

pub record RecoverEvent : Type 0 where
  pub token : ℕ
  pub model : ℕ
  pub gen : ℕ
  pub completed_at : ℕ
  pub status : Status
  pub kind : StatusErrKind
  pub class : RecoveryClass
  pub proof_gen : ℕ

-- `ledgerSnap`.
pub record Saved : Type 0 where
  pub reserved : Option ℕ
  pub marker : Option ℕ

unfoldable pub snap_ledger : ℕ → Router → Saved
snap_ledger id r = record { reserved = r.reserved id; marker = lookup id r.residual_after }

unfoldable pub restored_marks : ℕ → Option ℕ → List (ℕ × ℕ) → List (ℕ × ℕ)
restored_marks id none marks = without id marks
restored_marks id (some at) marks = with_entry id at marks

unfoldable pub restore_ledger : ℕ → Saved → Router → Router
unfolding restored_marks
restore_ledger id saved r = record r {
  reserved = update r.reserved id saved.reserved;
  residual_after = restored_marks id saved.marker r.residual_after;
}

-- `cur >= peak` of an entry that is there.
abbrev pub holds_peak : ℕ → Option ℕ → Bool
holds_peak peak none = false
holds_peak peak (some cur) = sle peak cur

unfoldable pub ensure_peak_of : ℕ → Option Model → Router → Router
unfolding reserve
ensure_peak_of id none r = r
ensure_peak_of id (some m) r =
    if holds_peak (load_bound m) (r.reserved id) then r else reserve id (load_bound m) r

unfoldable pub ensure_peak : ℕ → Router → Router
unfolding ensure_peak_of
ensure_peak id r = ensure_peak_of id (lookup id r.models) r

abbrev pub is_later : Option ℕ → ℕ → Bool
is_later none at = true
is_later (some prev) at = ltb prev at

-- A marker moves forward in time only.
unfoldable pub mark_residual : ℕ → ℕ → Router → Router
mark_residual id at r =
    if is_later (lookup id r.residual_after) at
    then record r { residual_after = with_entry id at r.residual_after }
    else r

unfoldable pub tentative_class : RecoveryClass → RecoverEvent → Router → Router
unfolding ensure_peak mark_residual
tentative_class ready_idle ev r =
    ensure_peak ev.model (record r { residual_after = without ev.model r.residual_after })
tentative_class unloaded_idle ev r = mark_residual ev.model ev.completed_at (ensure_peak ev.model r)
tentative_class failed_not_resident_idle ev r =
    mark_residual ev.model ev.completed_at (ensure_peak ev.model r)
tentative_class _ ev r = ensure_peak ev.model r

unfoldable pub tentative : RecoverEvent → Router → Router
unfolding tentative_class
tentative ev r = tentative_class ev.class ev r

abbrev pub is_ready_idle : RecoveryClass → Bool
is_ready_idle ready_idle = true
is_ready_idle _ = false

unfoldable pub confirm_recover : World → RecoverEvent → Router → Router
unfolding note_recovered_ready
confirm_recover w ev r =
    let r' = record r { last_status = update r.last_status ev.model (some ev.status) } in
    if is_ready_idle ev.class then note_recovered_ready w ev.model r' else r'
