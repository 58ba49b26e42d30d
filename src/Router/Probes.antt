-- ===== src/Router/Probes.antt =====
-- internal/router/recover.go: what a probe brings to the loop.
use infer_swap.Common.{
  ℕ, Bool, true, false, not, ◌&&◌, ◌≡◌, ◌≢◌, refl, some, Result, ok, err, arith, if-cases,
}
use infer_swap.Wire.{Status, RecoveryClass}
use infer_swap.Client.Calls.{GoError, Exchange, fetch_status, classify_status_err, is_endpoint_down}
use infer_swap.Client.Fetched.{fetch_status-IsParsed}
use infer_swap.Router.Loop.{calls_client, is_status, is_invalid}
use infer_swap.Router.Messages.{begin_probe, class_of, error_of}

-- Whether a status has been read.
abbrev pub is_read : Result GoError Status → Bool
is_read (ok st) = true
is_read (err e) = false

valid_class : (c : RecoveryClass) → c ≢ RecoveryClass.invalid → is_invalid c ≡ false
valid_class RecoveryClass.invalid h = absurd (h refl)
valid_class RecoveryClass.ready_idle h = refl
valid_class RecoveryClass.ready_busy h = refl
valid_class RecoveryClass.unloaded_idle h = refl
valid_class RecoveryClass.failed_not_resident_idle h = refl
valid_class RecoveryClass.failed_not_resident_busy h = refl
valid_class RecoveryClass.failed_occupied h = refl
valid_class RecoveryClass.in_progress h = refl

error_kind : (e : GoError) → is_status (classify_status_err (some e)) ≡ false
unfolding classify_status_err
error_kind e = if-cases (λ k. is_status k ≡ false) (is_endpoint_down e) (λ _. refl) (λ _. refl)

read_calls :
    (x : Exchange) (r : Result GoError Status)
    → fetch_status x ≡ r
    → (is_status (classify_status_err (error_of r)) && not (is_invalid (class_of r))) ≡ is_read r
unfolding classify_status_err
read_calls x (ok st) e =
    let (_, _, valid) = fetch_status-IsParsed x st e in
    ground (arith, valid_class (class_of (ok st)) valid)
read_calls x (err e) h = ground (arith, error_kind e)

-- The loop asks the client to apply a probe exactly if the probe has read a status: a status that comes
-- over the wire always has a row in the recovery matrix, and an error is never applied.
pub begin_probe-calls_client :
    (token model gen proof now : ℕ) (x : Exchange)
    → calls_client (begin_probe token model gen proof now x) ≡ is_read (fetch_status x)
unfolding calls_client begin_probe
begin_probe-calls_client token model gen proof now x = read_calls x (fetch_status x) refl
