-- ===== src/Sched/Changes.antt =====
-- internal/router/scheduler/recover.go, seen from outside: every handler of the recovery makes a
-- sequence of a few elementary changes.
use infer_swap.Common.{
  ℕ, ◌+◌, Bool, true, false, not, ◌&&◌, ◌||◌, ◌≡◌, refl, ◌∙◌, Option, List, [], ◌∷◌, ◌==◌,
  if◌then◌else◌, arith, if-cases, update, is_empty, remove, insert,
}
use infer_swap.Wire.{RecoveryClass, is_starting}
use infer_swap.Sched.Types.{Fifo, Env, HandlerReq, ProbeNote, Phase, recover, sample, Fault}
use infer_swap.Sched.Load.{is_recovering}
use infer_swap.Sched.Probe.{
  set_phase, begin, mark_seen, leave_recovery, drop_owner, fail_owner, fail_head, finish_probes,
  launch_from, launch_probe, state_is,
}
use infer_swap.Sched.Dispatch.{refuse}
use infer_swap.Sched.Handlers.{apply_backend}
use infer_swap.Sched.Notes.{
  is_recover, is_sample, forget_probe, absorb, absorb_late, note_step, note_late, note_busy,
  note_current, clear_marker, apply_note, absorb_class, is_endpoint_down, is_other, is_invalid,
  is_ready_idle, is_stale, is_busy, is_late,
}

-- One change. `noted` is of what the recovery keeps for itself.
pub data Change (s : Fifo) : Fifo → Type 0 where
  noted :
      (unload_fail checked accept_late : ℕ → Bool) (seen : ℕ → ℕ → Bool) (need : List ℕ)
      (pos model : ℕ) (res life skip : Bool) (started : ℕ → Option ℕ)
      → Change s (record s {
        unload_fail = unload_fail;
        checked = checked;
        accept_late = accept_late;
        seen = seen;
        need_sample = need;
        status_pos = pos;
        inflight_model = model;
        saw_resources = res;
        saw_lifecycle = life;
        skip_rest = skip;
        probe_started = started;
      })
  backend_seen : (model active proof : ℕ) → Change s (apply_backend model active proof s)
  probed : (id : ℕ) → Change s (begin id s)
  sampled : s.phase ≡ recover → Change s (set_phase sample s)
  left : is_recovering s.phase ≡ true → Change s (leave_recovery s)
  failed :
      (err : Fault) (head : HandlerReq) (rest : List HandlerReq)
      → s.queued ≡ head ∷ rest
      → Change s (refuse head rest err s)

pub data Changes (s : Fifo) : Fifo → Type 0 where
  here : Changes s s
  more : {t u : Fifo} → Changes s t → Change t u → Changes s u

one : {s t : Fifo} → Change s t → Changes s t
one c = more here c

infixl 30 ◌⨟◌
◌⨟◌ : {s t u : Fifo} → Changes s t → Changes t u → Changes s u
cs ⨟ here = cs
cs ⨟ more ds d = more (cs ⨟ ds) d

fail_head-Changes :
    (err : Fault) (owner : ℕ) (q : List HandlerReq) (s : Fifo)
    → s.queued ≡ q
    → Changes s (fail_head err owner q s)
unfolding fail_head refuse
fail_head-Changes err owner [] s e = here
fail_head-Changes err owner (head ∷ rest) s e =
    if-cases (Changes s) (head.id == owner) (λ _. one (failed err head rest e)) (λ _. here)

pub fail_owner-Changes :
    (err : Fault) (s : Fifo) → is_recovering s.phase ≡ true → Changes s (fail_owner err s)
unfolding fail_owner leave_recovery
fail_owner-Changes err s h =
    more (one (left h)) (noted _ _ _ _ _ _ _ _ _ _ _) ⨟ fail_head-Changes err _ _ _ refl

finish_probes-Changes : (s : Fifo) → s.phase ≡ recover → Changes s (finish_probes s).0
unfolding finish_probes
finish_probes-Changes s h =
    let on : is_recovering s.phase ≡ true = rw h in
    if-cases (λ (r : Fifo × Bool). Changes s r.0) s.skip_rest (λ _. one (left on))
      λ _.
        if-cases (λ (r : Fifo × Bool). Changes s r.0) s.saw_resources
          (λ _. fail_owner-Changes _ s on)
          λ _.
            if-cases (λ (r : Fifo × Bool). Changes s r.0) s.saw_lifecycle
              (λ _. fail_owner-Changes _ s on)
              λ _.
                if-cases (λ (r : Fifo × Bool). Changes s r.0) (not (is_empty s.need_sample))
                  (λ _. one (sampled h)) (λ _. one (left on))

launch_from-Changes :
    (ids : List ℕ) (s : Fifo) → s.phase ≡ recover → Changes s (launch_from ids s).0
unfolding launch_from
launch_from-Changes [] s h = finish_probes-Changes s h
launch_from-Changes (id ∷ ids) s h =
    if-cases (λ (r : Fifo × Bool). Changes s r.0) (s.checked id)
      (λ _. one (noted _ _ _ _ _ _ _ _ _ _ _) ⨟ launch_from-Changes ids _ h) (λ _. one (probed id))

launch_probe-Changes : (s : Fifo) → s.phase ≡ recover → Changes s (launch_probe s).0
unfolding launch_probe
launch_probe-Changes s h = launch_from-Changes _ s h

mark_seen-Changes : (id model : ℕ) (s : Fifo) → Changes s (mark_seen id model s)
unfolding mark_seen
mark_seen-Changes id model s = one (noted _ _ _ _ _ _ _ _ _ _ _)

pub drop_owner-Changes : (id : ℕ) (s : Fifo) → Changes s (drop_owner id s)
unfolding drop_owner
drop_owner-Changes id s =
    if-cases (Changes s) (not (s.recover_owner == id) || not (is_recovering s.phase)) (λ _. here)
      (λ h. more (one (noted _ _ _ _ _ _ _ _ _ _ _)) (left (ground arith)))

abbrev Lands : Fifo → Fifo × Bool → Type 0
Lands s r = Changes s r.0

set_resources : (s : Fifo) → Changes s (record s { saw_resources = true })
set_resources s = one (noted _ _ _ _ _ _ _ _ _ _ _)

apply_note-Changes : (n : ProbeNote) (s : Fifo) → Changes s (apply_note n s)
unfolding apply_note
apply_note-Changes n s = if-cases (Changes s) n.applied (λ _. one (backend_seen _ _ _)) (λ _. here)

absorb_idle-Changes :
    (n : ProbeNote) (s : Fifo)
    → Changes s (
        if n.applied
        then record s {
          unload_fail = update s.unload_fail n.model false;
          need_sample = remove n.model s.need_sample;
        }
        else s)
absorb_idle-Changes n s =
    if-cases (Changes s) n.applied (λ _. one (noted _ _ _ _ _ _ _ _ _ _ _)) (λ _. here)

absorb_waits-Changes :
    (n : ProbeNote) (s : Fifo)
    → Changes s (if n.applied then record s { need_sample = insert n.model s.need_sample } else s)
absorb_waits-Changes n s =
    if-cases (Changes s) n.applied (λ _. one (noted _ _ _ _ _ _ _ _ _ _ _)) (λ _. here)

absorb_class-Changes :
    (c : RecoveryClass) (n : ProbeNote) (s : Fifo) → Changes s (absorb_class c n s)
unfolding absorb_class
absorb_class-Changes RecoveryClass.ready_idle n s =
    if-cases (Changes s) (n.model == s.recover_model)
      (λ _. more (absorb_idle-Changes n s) (noted _ _ _ _ _ _ _ _ _ _ _))
      (λ _. absorb_idle-Changes n s)
absorb_class-Changes RecoveryClass.unloaded_idle n s = absorb_waits-Changes n s
absorb_class-Changes RecoveryClass.failed_not_resident_idle n s = absorb_waits-Changes n s
absorb_class-Changes RecoveryClass.ready_busy n s = one (noted _ _ _ _ _ _ _ _ _ _ _)
absorb_class-Changes RecoveryClass.in_progress n s = one (noted _ _ _ _ _ _ _ _ _ _ _)
absorb_class-Changes _ n s = set_resources s

absorb-Changes : (n : ProbeNote) (s : Fifo) → Changes s (absorb n s)
unfolding absorb
absorb-Changes n s =
    if-cases (Changes s) (is_endpoint_down n.kind)
      (λ _. if-cases (Changes s) (n.model == s.recover_model) (λ _. here) (λ _. set_resources s))
      λ _.
        if-cases (Changes s) (is_other n.kind) (λ _. set_resources s)
          λ _.
            if-cases (Changes s) (is_invalid n.class) (λ _. set_resources s)
              λ _. apply_note-Changes n s ⨟ absorb_class-Changes n.class n _

phase-absorb : (n : ProbeNote) (s : Fifo) → (absorb n s).phase ≡ s.phase
unfolding absorb apply_note apply_backend absorb_class
phase-absorb n s = ground arith

absorb_late-Changes : (n : ProbeNote) (s : Fifo) → Changes s (absorb_late n s)
unfolding absorb_late
absorb_late-Changes n s =
    if-cases (Changes s) (n.applied && is_ready_idle n.class)
      (λ _. more (apply_note-Changes n s) (noted _ _ _ _ _ _ _ _ _ _ _))
      (λ _. apply_note-Changes n s)

note_late-Changes : (n : ProbeNote) (s : Fifo) → Lands s (note_late n s)
unfolding note_late
note_late-Changes n s =
    if-cases (Lands s) (is_stale n.ack) (λ _. here) (λ _. absorb_late-Changes n s)

note_busy-Changes :
    (env : Env) (n : ProbeNote) (s : Fifo)
    → is_recovering s.phase ≡ true
    → Lands s (note_busy env n s)
unfolding note_busy
note_busy-Changes env n s h =
    if-cases (Lands s)
      (n.model == s.recover_model && state_is is_starting (env.model_state n.model))
      (λ _. one (left h)) (λ _. fail_owner-Changes _ s h)

-- After an absorbed note the next probe is launched, or the recovery is left.
absorbed-Changes :
    (t : Fifo)
    → t.phase ≡ recover
    → Lands t (
        if t.skip_rest
        then (leave_recovery t, true)
        else launch_probe (record t { status_pos = t.status_pos + 1 }))
absorbed-Changes t h =
    if-cases (Lands t) t.skip_rest (λ _. one (left (rw h)))
      λ _. one (noted _ _ _ _ _ _ _ _ _ _ _) ⨟ launch_probe-Changes _ h

note_current-Changes :
    (env : Env) (n : ProbeNote) (s : Fifo) → s.phase ≡ recover → Lands s (note_current env n s)
unfolding note_current
note_current-Changes env n s h =
    if-cases (Lands s) (is_stale n.ack) (λ _. checked ⨟ fail_owner-Changes _ _ (rw h))
      λ _.
        if-cases (Lands s) (is_busy n.ack) (λ _. checked ⨟ note_busy-Changes env n _ (rw h))
          λ _. checked ⨟ absorb-Changes n _ ⨟ absorbed-Changes _ (phase-absorb n _ ∙ h)
  where
    checked : Changes s (record s { checked = update s.checked n.model true; inflight_model = 0 })
    checked = one (noted _ _ _ _ _ _ _ _ _ _ _)

is_recover→eq : (p : Phase) → is_recover p ≡ true → p ≡ recover
is_recover→eq p h = ground arith

pub forget_probe-Changes : (model : ℕ) (s : Fifo) → Changes s (forget_probe model s)
unfolding forget_probe
forget_probe-Changes model s = one (noted _ _ _ _ _ _ _ _ _ _ _)

phase-mark_seen : (id model : ℕ) (s : Fifo) → (mark_seen id model s).phase ≡ s.phase
unfolding mark_seen
phase-mark_seen id model s = refl

-- What a probe's note does before tryDispatch.
pub note_step-Changes : (env : Env) (n : ProbeNote) (s : Fifo) → Lands s (note_step env n s)
unfolding note_step
note_step-Changes env n s =
    if-cases (Lands s) (is_late n.mode)
      (λ _. forget_probe-Changes n.model s ⨟ note_late-Changes n _)
      λ _.
        if-cases (Lands s) (is_recover s₁.phase && n.token == s₁.recover_token)
          (λ h. seen ⨟ note_current-Changes env n s₁ (is_recover→eq _ (ground arith))) (λ _. seen)
  where
    s₁ : Fifo
    s₁ = mark_seen (forget_probe n.model s).recover_owner n.model (forget_probe n.model s)

    seen : Changes s s₁
    seen = forget_probe-Changes n.model s ⨟ mark_seen-Changes _ n.model _

-- What a fresh sample does before tryDispatch.
pub clear_marker-Changes : (id : ℕ) (s : Fifo) → Lands s (clear_marker id s)
unfolding clear_marker
clear_marker-Changes id s =
    if-cases (Lands s) (is_sample s.phase && is_empty (remove id s.need_sample))
      (λ h. more cleared (left (ground arith))) (λ _. cleared)
  where
    cleared : Changes s (record s {
      need_sample = remove id s.need_sample;
      unload_fail = update s.unload_fail id false;
    })
    cleared = one (noted _ _ _ _ _ _ _ _ _ _ _)
