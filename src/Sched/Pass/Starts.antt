-- ===== src/Sched/Pass/Starts.antt =====
-- The ways in which maybeRecover begins a recovery.
use infer_swap.Common.{
  ℕ, false, ◌≡◌, refl, inl, inr, Option, none, some, List, [], ◌∷◌, if-cases, Option-cases,
}
use infer_swap.Sched.Types.{Fifo, Env, HandlerReq, RecoveryFacts, sample}
use infer_swap.Sched.Probe.{
  Plan, Verdict, go_on, settled, enter_recovery, set_phase, begin, launch_probe, launch_from,
  maybe_recover_at, start_recovery, recover_with, maybe_recover, todo, is_needless, live_probe,
}

-- The state in which a recovery of `head` begins: it joins the probe under way, waits for samples,
-- or launches the first probe of the plan.
pub data Started (head : HandlerReq) (s : Fifo) : Fifo → Type 0 where
  joined : (plan : Plan) (id tok : ℕ) → Started head s (enter_recovery head plan tok id s)
  sampling :
      (plan : Plan) (tok : ℕ)
      → Started head s
          (set_phase sample (enter_recovery head plan tok 0 (record s { token_seq = tok })))
  probing :
      (plan : Plan) (tok id : ℕ)
      → Started head s (begin id (enter_recovery head plan tok 0 (record s { token_seq = tok })))

-- What maybeRecover says, and in which state.
pub data RecoverCase (head : HandlerReq) (s : Fifo) : Fifo × Verdict → Type 0 where
  passed : RecoverCase head s (s, go_on)
  started : {t : Fifo} → Started head s t → RecoverCase head s (t, settled)

launch-enter :
    (head : HandlerReq) (plan : Plan) (tok id : ℕ) (ids : List ℕ) (s : Fifo)
    → plan.status ≡ id ∷ ids
    → launch_probe (enter_recovery head plan tok 0 s)
      ≡ (begin id (enter_recovery head plan tok 0 s), false)
unfolding launch_probe enter_recovery launch_from
launch-enter head plan tok id ids s e = rw e refl

start-Case :
    (head : HandlerReq) (status samples : List ℕ) (live : Option (ℕ × ℕ)) (s : Fifo)
    → RecoverCase head s
        (start_recovery head (record { status = status; samples = samples }) live s)
unfolding start_recovery
start-Case head status samples (some (id, tok)) s = started (joined _ id tok)
start-Case head [] samples none s = started (sampling _ _)
start-Case head (id ∷ ids) samples none s =
    rw (launch-enter head (record { status = id ∷ ids; samples = samples }) _ id ids _ refl)
      (started (probing _ _ id))

recover_with-Case :
    (facts : RecoveryFacts) (head : HandlerReq) (s : Fifo)
    → RecoverCase head s (recover_with facts head s)
unfolding recover_with
recover_with-Case facts head s =
    if-cases (RecoverCase head s) (is_needless facts head (todo facts head s)) (λ _. passed)
      λ _.
        start-Case head (todo facts head s).status (todo facts head s).samples
          (live_probe s (todo facts head s).status) s

pub maybe_recover-Case :
    (env : Env) (head : HandlerReq) (s : Fifo) → RecoverCase head s (maybe_recover env head s)
unfolding maybe_recover
maybe_recover-Case env head s = elim (Option-cases env.recovery) [
  | inl e ↦ rw (e, maybe_recover_at) passed
  | inr (facts, e) ↦ rw (e, maybe_recover_at) (recover_with-Case facts head s)
]
