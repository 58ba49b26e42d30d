-- ===== src/Sched/Pass/Cases.antt =====
-- Every outcome of one pass of tryDispatch, with the tests that lead to it.
use infer_swap.Common.{
  ℕ, ◌<◌, ◌≤◌, Bool, true, false, ◌≡◌, refl, sym, subst, List, [], ◌∷◌, leb, arith, if-cases,
}
use infer_swap.Wire.{is_ready}
use infer_swap.Sched.Types.{
  Fifo, Env, HandlerReq, Phase, idle, unloading, loading, recover, sample, Fault, sched,
  unload_blocked, Decision, evicts, refused,
}
use infer_swap.Sched.Load.{
  is_recovering, any_busy, any_unload_failed, slots, limit, blocked, decide, running_ids,
}
use infer_swap.Sched.Gates.{close_gates, reopen_unused_gates, drain_expired, arm_drain}
use infer_swap.Sched.Probe.{Verdict, go_on, state_is}
use infer_swap.Sched.Dispatch.{
  refuse, grant_head, fail_drain, begin_unload, begin_load, evict_for, serve_or_load, act, try_head,
  dispatch_queue, recover_head, after_recover, pass,
}
use infer_swap.Sched.Pass.Starts.{Started, RecoverCase, passed, started, maybe_recover-Case}

-- What is done about victims whose gates are closed.
pub data EvictCase (env : Env) (head : HandlerReq) (rest : List HandlerReq) (victims : List ℕ)
    (s : Fifo) : Fifo × Bool → Type 0 where
  expired : EvictCase env head rest victims s (fail_drain head rest victims s, true)
  draining :
      any_busy s victims ≡ true → EvictCase env head rest victims s (arm_drain env victims s, false)
  barred : EvictCase env head rest victims s (refuse head rest (sched unload_blocked) s, true)
  unloads :
      any_busy s victims ≡ false
      → any_unload_failed s victims ≡ false
      → EvictCase env head rest victims s (begin_unload env head victims s, false)

-- What is done for the head of an idle queue once the unused gates are open. `s` is the state then.
pub data HeadCase (env : Env) (head : HandlerReq) (rest : List HandlerReq) (s : Fifo)
    : Fifo × Bool → Type 0 where
  full : limit s head.model ≤ slots s head.model → HeadCase env head rest s (s, false)
  refusing : (err : Fault) → HeadCase env head rest s (refuse head rest err s, true)
  granting :
      slots s head.model < limit s head.model
      → state_is is_ready (env.model_state head.model) ≡ true
      → HeadCase env head rest s (grant_head env head rest s, true)
  loads :
      state_is is_ready (env.model_state head.model) ≡ false
      → HeadCase env head rest s (begin_load head s, false)
  evicting :
      (v : ℕ) (vs : List ℕ) {r : Fifo × Bool}
      → decide env.planner head.model (running_ids env s) ≡ evicts (v ∷ vs)
      → EvictCase env head rest (v ∷ vs) (close_gates env (v ∷ vs) s) r
      → HeadCase env head rest s r

-- A whole pass.
pub data PassCase (env : Env) (s : Fifo) : Fifo × Bool → Type 0 where
  in_recovery : is_recovering s.phase ≡ true → PassCase env s (s, false)
  starting :
      (head : HandlerReq) (rest : List HandlerReq) {t : Fifo}
      → s.phase ≡ idle
      → s.queued ≡ head ∷ rest
      → Started head s t
      → PassCase env s (t, false)
  resting :
      is_recovering s.phase ≡ false
      → (s.phase ≡ idle → s.queued ≡ [])
      → PassCase env s (reopen_unused_gates env s, false)
  acting :
      (head : HandlerReq) (rest : List HandlerReq) {r : Fifo × Bool}
      → s.phase ≡ idle
      → s.queued ≡ head ∷ rest
      → HeadCase env head rest (reopen_unused_gates env s) r
      → PassCase env s r

module _ (env : Env) (head : HandlerReq) (rest : List HandlerReq) where
  evict_for-Case :
      (victims : List ℕ) (s : Fifo)
      → EvictCase env head rest victims s (evict_for env head rest victims s)
  unfolding evict_for
  evict_for-Case victims s =
      if-cases (EvictCase env head rest victims s) (drain_expired env s victims) (λ _. expired)
        λ _. if-cases (EvictCase env head rest victims s) (any_busy s victims) draining λ idle_now.
          if-cases (EvictCase env head rest victims s) (any_unload_failed s victims) (λ _. barred)
            (unloads idle_now)

  act-Case :
      (d : Decision) (s : Fifo)
      → slots s head.model < limit s head.model
      → decide env.planner head.model (running_ids env s) ≡ d
      → HeadCase env head rest s (act env head rest d s)
  unfolding act serve_or_load
  act-Case (refused err) s free e = refusing err
  act-Case (evicts []) s free e =
      if-cases (HeadCase env head rest s) (state_is is_ready (env.model_state head.model))
        (granting free) loads
  act-Case (evicts (v ∷ vs)) s free e = evicting v vs e (evict_for-Case (v ∷ vs) _)

  try_head-Case : (s : Fifo) → HeadCase env head rest s (try_head env head rest s)
  unfolding try_head
  try_head-Case s =
      if-cases (HeadCase env head rest s) (blocked env s head.model) (λ _. refusing _)
        λ _.
          if-cases (HeadCase env head rest s) (leb (limit s head.model) (slots s head.model))
            (λ h. full (ground arith)) λ h. act-Case _ s (ground arith) refl

dispatch_queue-Case :
    (env : Env) (head : HandlerReq) (rest : List HandlerReq) (s : Fifo) {p : Phase}
    {q : List HandlerReq}
    → idle ≡ p
    → head ∷ rest ≡ q
    → HeadCase env head rest s (dispatch_queue env p q s)
unfolding dispatch_queue
dispatch_queue-Case env head rest s {q = q} e f =
    subst (λ p. HeadCase env head rest s (dispatch_queue env p q s)) e
      (subst (λ r. HeadCase env head rest s (dispatch_queue env idle r s)) f
        (try_head-Case env head rest s))

idle_pass :
    (env : Env) (head : HandlerReq) (rest : List HandlerReq) (s : Fifo) {r : Fifo × Verdict}
    → s.phase ≡ idle
    → s.queued ≡ head ∷ rest
    → RecoverCase head s r
    → PassCase env s (after_recover env r)
unfolding after_recover reopen_unused_gates
idle_pass env head rest s p q (started st) = starting head rest p q st
idle_pass env head rest s p q passed =
    acting head rest p q (dispatch_queue-Case env head rest _ (sym p) (sym q))

-- With an empty queue, or in a swap, a pass opens gates at most.
dispatch_rests :
    (env : Env) (p : Phase) (q : List HandlerReq) (s : Fifo)
    → (p ≡ idle → q ≡ [])
    → dispatch_queue env p q s ≡ (s, false)
unfolding dispatch_queue
dispatch_rests env idle [] s h = refl
dispatch_rests env idle (x ∷ xs) s h = cc (h refl)
dispatch_rests env _ _ s h = refl

rest_pass :
    (env : Env) (s : Fifo)
    → is_recovering s.phase ≡ false
    → (s.phase ≡ idle → s.queued ≡ [])
    → PassCase env s (after_recover env (s, go_on))
unfolding after_recover reopen_unused_gates
rest_pass env s h k =
    subst (PassCase env s) (sym (dispatch_rests env s.phase s.queued (reopen_unused_gates env s) k))
      (resting h k)

pass_at :
    (env : Env) (s : Fifo) (p : Phase) (q : List HandlerReq)
    → s.phase ≡ p
    → s.queued ≡ q
    → is_recovering p ≡ false
    → PassCase env s (after_recover env (recover_head env p q s))
unfolding recover_head
pass_at env s idle (head ∷ rest) p q h =
    idle_pass env head rest s p q (maybe_recover-Case env head s)
pass_at env s idle [] p q h = rest_pass env s (rw p) (λ _. q)
pass_at env s unloading _ p q h = rest_pass env s (rw p) (λ e. cc)
pass_at env s loading _ p q h = rest_pass env s (rw p) (λ e. cc)
pass_at env s recover _ p q h = cc
pass_at env s sample _ p q h = cc

pub pass-Case : (env : Env) (s : Fifo) → PassCase env s (pass env s)
unfolding pass
pass-Case env s =
    if-cases (PassCase env s) (is_recovering s.phase) in_recovery
      (pass_at env s s.phase s.queued refl refl)
