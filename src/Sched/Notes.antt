-- ===== src/Sched/Notes.antt =====
-- internal/router/scheduler/recover.go: the handlers of what a probe or a GPU sample tells.
use infer_swap.Common.{
  ℕ, ◌+◌, Bool, true, false, ◌&&◌, none, ◌==◌, if◌then◌else◌, update, insert, remove, is_empty,
}
use infer_swap.Wire.{
  is_starting, RecoveryClass, ready_idle, ready_busy, unloaded_idle, failed_not_resident_idle,
  in_progress, StatusErrKind, endpoint_down, other, ApplyCode, stale, busy,
}
use infer_swap.Sched.Types.{
  Fifo, Env, ProbeNote, RecoverMode, drop, current, late, Phase, recover, sample, sched, resources,
  lifecycle_pending, not_booted,
}
use infer_swap.Sched.Load.{is_idle}
use infer_swap.Sched.Probe.{leave_recovery, mark_seen, fail_owner, launch_probe, state_is}
use infer_swap.Sched.Dispatch.{try_dispatch}
use infer_swap.Sched.Handlers.{apply_backend}

abbrev pub is_recover : Phase → Bool
is_recover recover = true
is_recover _ = false

abbrev pub is_sample : Phase → Bool
is_sample sample = true
is_sample _ = false

-- `ProofGen`.
unfoldable pub proof_gen : Fifo → ℕ → ℕ
proof_gen s model = s.quiet_gen model

unfoldable pub recover_mode : Fifo → ℕ → RecoverMode
recover_mode s token =
    if is_recover s.phase && token == s.recover_token
    then current
    else if is_idle s.phase && s.accept_late token
    then late
    else drop

unfoldable pub forget_probe : ℕ → Fifo → Fifo
forget_probe model s = record s { probe_started = update s.probe_started model none }

-- tryDispatch at the end, where there is one.
abbrev pub dispatch_if : Env → Fifo × Bool → Fifo
dispatch_if env (s, false) = s
dispatch_if env (s, true) = try_dispatch env s

unfoldable pub apply_note : ProbeNote → Fifo → Fifo
apply_note n s = if n.applied then apply_backend n.model n.active n.proof_gen s else s

abbrev pub saw_resources_now : Fifo → Fifo
saw_resources_now s = record s { saw_resources = true }

unfoldable pub absorb_class : RecoveryClass → ProbeNote → Fifo → Fifo
absorb_class ready_idle n s =
    let s' =
      if n.applied
      then record s {
        unload_fail = update s.unload_fail n.model false;
        need_sample = remove n.model s.need_sample;
      }
      else s in
    if n.model == s.recover_model then record s' { skip_rest = true } else s'
absorb_class unloaded_idle n s =
    if n.applied then record s { need_sample = insert n.model s.need_sample } else s
absorb_class failed_not_resident_idle n s =
    if n.applied then record s { need_sample = insert n.model s.need_sample } else s
absorb_class ready_busy n s = record s { saw_lifecycle = true }
absorb_class in_progress n s = record s { saw_lifecycle = true }
absorb_class _ n s = saw_resources_now s

abbrev pub is_endpoint_down : StatusErrKind → Bool
is_endpoint_down endpoint_down = true
is_endpoint_down _ = false

abbrev pub is_other : StatusErrKind → Bool
is_other other = true
is_other _ = false

abbrev pub is_invalid : RecoveryClass → Bool
is_invalid RecoveryClass.invalid = true
is_invalid _ = false

unfoldable pub absorb : ProbeNote → Fifo → Fifo
unfolding apply_note absorb_class
absorb n s =
    if is_endpoint_down n.kind
    then (if n.model == s.recover_model then s else saw_resources_now s)
    else if is_other n.kind
    then saw_resources_now s
    else if is_invalid n.class
    then saw_resources_now s
    else absorb_class n.class n (apply_note n s)

abbrev pub is_ready_idle : RecoveryClass → Bool
is_ready_idle ready_idle = true
is_ready_idle _ = false

abbrev pub is_stale : ApplyCode → Bool
is_stale stale = true
is_stale _ = false

abbrev pub is_busy : ApplyCode → Bool
is_busy busy = true
is_busy _ = false

-- A late answer still settles the backend's count and the failed unload.
unfoldable pub absorb_late : ProbeNote → Fifo → Fifo
unfolding apply_note
absorb_late n s =
    let s' = apply_note n s in
    if n.applied && is_ready_idle n.class
    then record s' { unload_fail = update s'.unload_fail n.model false }
    else s'

unfoldable pub note_late : ProbeNote → Fifo → Fifo × Bool
note_late n s =
    if is_stale n.ack then (s, false) else let s' = absorb_late n s in (s', is_idle s'.phase)

-- A busy client that is loading the very model is waited for; any other ends the recovery.
unfoldable pub note_busy : Env → ProbeNote → Fifo → Fifo × Bool
note_busy env n s =
    if n.model == s.recover_model && state_is is_starting (env.model_state n.model)
    then (leave_recovery s, true)
    else (fail_owner (sched lifecycle_pending) s, true)

unfoldable pub note_current : Env → ProbeNote → Fifo → Fifo × Bool
unfolding note_busy
note_current env n s =
    let s' = record s { checked = update s.checked n.model true; inflight_model = 0 } in
    if is_stale n.ack
    then (fail_owner (sched resources) s', true)
    else if is_busy n.ack
    then note_busy env n s'
    else let t = absorb n s' in
      if t.skip_rest
      then (leave_recovery t, true)
      else launch_probe (record t { status_pos = t.status_pos + 1 })

abbrev pub is_late : RecoverMode → Bool
is_late late = true
is_late _ = false

unfoldable pub note_step : Env → ProbeNote → Fifo → Fifo × Bool
unfolding note_late note_current forget_probe
note_step env n s =
    let s₀ = forget_probe n.model s in
    let s₁ = mark_seen s₀.recover_owner n.model s₀ in
    if is_late n.mode
    then note_late n s₀
    else if is_recover s₁.phase && n.token == s₁.recover_token
    then note_current env n s₁
    else (s₁, false)

unfoldable pub note_probe : Env → ProbeNote → Fifo → Fifo
note_probe env n s = dispatch_if env (note_step env n s)

unfoldable pub clear_marker : ℕ → Fifo → Fifo × Bool
clear_marker id s =
    let s' = record s {
      need_sample = remove id s.need_sample;
      unload_fail = update s.unload_fail id false;
    } in
    if is_sample s'.phase && is_empty s'.need_sample then (leave_recovery s', true) else (s', false)

unfoldable pub marker_cleared : Env → ℕ → Fifo → Fifo
unfolding clear_marker
marker_cleared env id s = dispatch_if env (clear_marker id s)

unfoldable pub sample_failed : Env → Fifo → Fifo
sample_failed env s =
    if is_sample s.phase then try_dispatch env (fail_owner (sched not_booted) s) else s
