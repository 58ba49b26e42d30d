-- ===== src/Wire/Matrix.antt =====
-- internal/runtime/recover.go and parse.go: the recovery matrix and the validation of a status.
use infer_swap.Common.{ℕ, true, false, not, ◌≡◌, ◌↔◌, refl, arith, Option}
use infer_swap.Wire.{
  WireState, Residency, RecoveryClass, Status, LastError, classify, classify_recovery,
  validate_status, is_invalid_class,
}

invalid_iff : (c : RecoveryClass) → (c ≡ RecoveryClass.invalid) ↔ (is_invalid_class c ≡ true)
invalid_iff RecoveryClass.invalid = (λ _. refl, λ _. refl)
invalid_iff RecoveryClass.ready_idle = (λ e. cc, λ e. cc)
invalid_iff RecoveryClass.ready_busy = (λ e. cc, λ e. cc)
invalid_iff RecoveryClass.unloaded_idle = (λ e. cc, λ e. cc)
invalid_iff RecoveryClass.failed_not_resident_idle = (λ e. cc, λ e. cc)
invalid_iff RecoveryClass.failed_not_resident_busy = (λ e. cc, λ e. cc)
invalid_iff RecoveryClass.failed_occupied = (λ e. cc, λ e. cc)
invalid_iff RecoveryClass.in_progress = (λ e. cc, λ e. cc)

classified :
    (s : WireState) (r : Residency) (n : ℕ) (e : Option LastError)
    → is_invalid_class (classify s r n)
      ≡ not (
          validate_status
            (record { state = s; residency = r; active_requests = n; last_error = e }))
unfolding classify validate_status
classified WireState.unloaded Residency.resident n e = ground arith
classified WireState.unloaded Residency.not_resident n e = ground arith
classified WireState.unloaded Residency.unknown n e = ground arith
classified WireState.loading Residency.resident n e = ground arith
classified WireState.loading Residency.not_resident n e = ground arith
classified WireState.loading Residency.unknown n e = ground arith
classified WireState.ready Residency.resident n e = ground arith
classified WireState.ready Residency.not_resident n e = ground arith
classified WireState.ready Residency.unknown n e = ground arith
classified WireState.unloading Residency.resident n e = ground arith
classified WireState.unloading Residency.not_resident n e = ground arith
classified WireState.unloading Residency.unknown n e = ground arith
classified WireState.failed Residency.resident n e = ground arith
classified WireState.failed Residency.not_resident n e = ground arith
classified WireState.failed Residency.unknown n e = ground arith

status_classified :
    (st : Status) → is_invalid_class (classify_recovery st) ≡ not (validate_status st)
unfolding classify_recovery
status_classified st = classified st.state st.residency st.active_requests st.last_error

-- The recovery matrix calls a status invalid exactly if the validation of a parsed status rejects
-- it.
pub classify_recovery-validate_status :
    (st : Status) → (classify_recovery st ≡ RecoveryClass.invalid) ↔ (validate_status st ≡ false)
classify_recovery-validate_status st = (
  (λ e. ground (arith, status_classified st, (invalid_iff (classify_recovery st)).0 e)),
  (λ e. (invalid_iff (classify_recovery st)).1 (ground (arith, status_classified st))),
)
