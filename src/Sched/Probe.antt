-- ===== src/Sched/Probe.antt =====
-- internal/router/scheduler/recover.go: the choice of the models to probe, and the start and the
-- end of a recovery. A function that may end in tryDispatch returns whether it does.
use infer_swap.Common.{
  ℕ, ◌+◌, Bool, true, false, not, ◌&&◌, ◌||◌, Option, none, some, List, [], ◌∷◌, ◌++◌, ◌==◌,
  if◌then◌else◌, next_u64, update, contains, remove, keep, is_empty, keys, lookup, sort_ids, drop,
}
use infer_swap.Wire.{State, is_ready, is_starting, is_failed_or_unknown}
use infer_swap.Sched.Types.{
  Fifo, Env, HandlerReq, RecoveryFacts, Phase, idle, recover, sample, Fault, sched, resources,
  lifecycle_pending, grant_error, begin_probe,
}
use infer_swap.Sched.Load.{is_idle, is_recovering}

unfoldable pub set_phase : Phase → Fifo → Fifo
set_phase p s = record s {
  accept_late = if is_idle p then s.accept_late else λ _. false;
  phase = p;
}

-- `s.phase = phaseIdle; s.recoverToken = 0; s.recoverOwner = 0`.
unfoldable pub leave_recovery : Fifo → Fifo
leave_recovery s = record s { phase = idle; recover_token = 0; recover_owner = 0 }

unfoldable pub drop_owner : ℕ → Fifo → Fifo
unfolding leave_recovery
drop_owner id s =
    if not (s.recover_owner == id) || not (is_recovering s.phase)
    then s
    else leave_recovery (record s {
      accept_late =
          if s.recover_token == 0 then s.accept_late else update s.accept_late s.recover_token true;
    })

unfoldable pub mark_seen : ℕ → ℕ → Fifo → Fifo
mark_seen id model s = record s {
  seen = if id == 0 || model == 0 then s.seen else update s.seen id (update (s.seen id) model true);
}

abbrev pub state_is : (State → Bool) → Option State → Bool
state_is p none = false
state_is p (some st) = p st

-- A model is to be probed if it failed, is unknown, or would not unload, and is not being loaded.
unfoldable pub wants_probe : RecoveryFacts → (ℕ → Bool) → ℕ → Bool
wants_probe facts unload_fail id =
    let st = lookup id facts.states in
    not (facts.in_flight id && state_is is_starting st)
    && (state_is is_failed_or_unknown st || unload_fail id)

pub record Plan : Type 0 where
  pub status : List ℕ
  pub samples : List ℕ

-- The target is probed first, the others in the order of their ids; a marked model waits for a
-- sample instead.
unfoldable pub plan_recovery : ℕ → RecoveryFacts → (ℕ → Bool) → Plan
unfolding wants_probe
plan_recovery target facts unload_fail =
    let ids = sort_ids (keys facts.states) in
    let want = keep (λ id. wants_probe facts unload_fail id && not (facts.markers id)) ids in
    record {
      status =
          if contains target want then target ∷ sort_ids (remove target want) else sort_ids want;
      samples = keep facts.markers ids;
    }

unfoldable pub filter_seen : (ℕ → Bool) → List ℕ → List ℕ
filter_seen seen ids = keep (λ id. not (seen id)) ids

-- The first model of the plan whose probe is still under way, with its token.
unfoldable pub live_probe : Fifo → List ℕ → Option (ℕ × ℕ)
live_probe s [] = none
live_probe s (id ∷ ids) = elim (s.probe_started id) [
  | some tok ↦ some (id, tok)
  | none ↦ live_probe s ids
]

-- The fields that both ways into a recovery set.
unfoldable pub enter_recovery : HandlerReq → Plan → ℕ → ℕ → Fifo → Fifo
unfolding set_phase
enter_recovery head plan token inflight s = record (set_phase recover s) {
  recover_token = token;
  recover_owner = head.id;
  recover_model = head.model;
  status_order = plan.status;
  status_pos = 0;
  need_sample = plan.samples;
  checked = λ _. false;
  saw_resources = false;
  saw_lifecycle = false;
  skip_rest = false;
  inflight_model = inflight;
}

-- `failOwner` up to its call of tryDispatch.
unfoldable pub fail_head : Fault → ℕ → List HandlerReq → Fifo → Fifo
fail_head err owner [] s = s
fail_head err owner (head ∷ rest) s =
    if head.id == owner
    then record s { queued = rest; out = s.out ++ grant_error head err ∷ [] }
    else s

unfoldable pub fail_owner : Fault → Fifo → Fifo
unfolding leave_recovery fail_head
fail_owner err s =
    fail_head err s.recover_owner s.queued (record (leave_recovery s) { inflight_model = 0 })

unfoldable pub finish_probes : Fifo → Fifo × Bool
finish_probes s =
    if s.skip_rest
    then (leave_recovery s, true)
    else if s.saw_resources
    then (fail_owner (sched resources) s, true)
    else if s.saw_lifecycle
    then (fail_owner (sched lifecycle_pending) s, true)
    else if not (is_empty s.need_sample)
    then (set_phase sample s, false)
    else (leave_recovery s, true)

unfoldable pub begin : ℕ → Fifo → Fifo
begin id s =
    let s' = mark_seen s.recover_owner id (record s {
      inflight_model = id;
      probe_started = update s.probe_started id (some s.recover_token);
    }) in
    record s' { out = s'.out ++ begin_probe s'.recover_token id ∷ [] }

-- The loop of `launchProbe`, over the models from `statusPos` on.
unfoldable pub launch_from : List ℕ → Fifo → Fifo × Bool
launch_from [] s = finish_probes s
launch_from (id ∷ ids) s =
    let rest = launch_from ids (record s { status_pos = s.status_pos + 1 }) in
    if s.checked id then rest else (begin id s, false)

unfoldable pub launch_probe : Fifo → Fifo × Bool
unfolding launch_from begin
launch_probe s = launch_from (drop s.status_pos s.status_order) s

-- What maybeRecover says: go on with the dispatch, stop, or (through launchProbe) dispatch again.
pub data Verdict : Type 0 where
  go_on settled again : Verdict

abbrev pub verdict : Bool → Verdict
verdict true = again
verdict false = settled

unfoldable pub start_recovery : HandlerReq → Plan → Option (ℕ × ℕ) → Fifo → Fifo × Verdict
unfolding enter_recovery
start_recovery head plan (some (id, tok)) s = (enter_recovery head plan tok id s, settled)
start_recovery head plan none s =
    let tok = next_u64 s.token_seq in
    let s' = enter_recovery head plan tok 0 (record s { token_seq = tok }) in
    if is_empty plan.status
    then (set_phase sample s', settled)
    else let (t, b) = launch_probe s' in (t, verdict b)

-- The plan, less what this request has probed already.
unfoldable pub todo : RecoveryFacts → HandlerReq → Fifo → Plan
todo facts head s =
    let plan = plan_recovery head.model facts s.unload_fail in
    record plan { status = filter_seen (s.seen head.id) plan.status }

-- The early returns of maybeRecover.
unfoldable pub is_needless : RecoveryFacts → HandlerReq → Plan → Bool
is_needless facts head plan =
    let st = lookup head.model facts.states in
    state_is is_ready st
    || (state_is is_starting st && facts.in_flight head.model)
    || (is_empty plan.status && is_empty plan.samples)

unfoldable pub recover_with : RecoveryFacts → HandlerReq → Fifo → Fifo × Verdict
recover_with facts head s =
    let plan = todo facts head s in
    if is_needless facts head plan
    then (s, go_on)
    else start_recovery head plan (live_probe s plan.status) s

unfoldable pub maybe_recover_at : Option RecoveryFacts → HandlerReq → Fifo → Fifo × Verdict
unfolding recover_with
maybe_recover_at none head s = (s, go_on)
maybe_recover_at (some facts) head s = recover_with facts head s

unfoldable pub maybe_recover : Env → HandlerReq → Fifo → Fifo × Verdict
unfolding maybe_recover_at
maybe_recover env head s = maybe_recover_at env.recovery head s
