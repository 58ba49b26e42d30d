-- ===== src/Sched/Pass/Ends.antt =====
-- The passes of tryDispatch end, and what each pass keeps, tryDispatch keeps.
use infer_swap.Common.{
  ℕ, zero, suc, ◌<◌, Bool, true, ◌≡◌, refl, sym, ap, ◌∙◌, inl, inr, some, List, length, arith,
  Bool-cases,
}
use infer_swap.Sched.Types.{Fifo, Env, HandlerReq}
use infer_swap.Sched.Dispatch.{
  refuse, grant_head, fail_drain, pass, dispatch_loop, or_else, try_dispatch,
}
use infer_swap.Sched.Pass.Cases.{
  EvictCase, expired, draining, barred, unloads, HeadCase, full, refusing, granting, loads,
  evicting, PassCase, in_recovery, starting, resting, acting, pass-Case,
}

queued-grant_head :
    (env : Env) (head : HandlerReq) (rest : List HandlerReq) (s : Fifo)
    → (grant_head env head rest s).queued ≡ rest
unfolding grant_head
queued-grant_head env head rest s = ground arith

evict-shortens :
    (env : Env) (head : HandlerReq) (rest : List HandlerReq) (victims : List ℕ) (s : Fifo)
    {r : Fifo × Bool}
    → EvictCase env head rest victims s r
    → r.1 ≡ true
    → r.0.queued ≡ rest
unfolding fail_drain refuse
evict-shortens env head rest victims s expired h = refl
evict-shortens env head rest victims s (draining _) h = cc
evict-shortens env head rest victims s barred h = refl
evict-shortens env head rest victims s (unloads _ _) h = cc

head-shortens :
    (env : Env) (head : HandlerReq) (rest : List HandlerReq) (s : Fifo) {r : Fifo × Bool}
    → HeadCase env head rest s r
    → r.1 ≡ true
    → r.0.queued ≡ rest
unfolding refuse
head-shortens env head rest s (full _) h = cc
head-shortens env head rest s (refusing err) h = refl
head-shortens env head rest s (granting _ _) h = queued-grant_head env head rest s
head-shortens env head rest s (loads _) h = cc
head-shortens env head rest s (evicting v vs _ c) h = evict-shortens env head rest _ _ c h

case-shortens :
    (env : Env) (s : Fifo) {r : Fifo × Bool}
    → PassCase env s r
    → r.1 ≡ true
    → suc (length r.0.queued) ≡ length s.queued
case-shortens env s (in_recovery _) h = cc
case-shortens env s (starting head rest _ _ _) h = cc
case-shortens env s (resting _ _) h = cc
case-shortens env s (acting head rest _ q c) h =
    ap (λ (l : List HandlerReq). suc (length l)) (head-shortens env head rest _ c h)
    ∙ sym (ap (λ (l : List HandlerReq). length l) q)

pub pass-shortens :
    (env : Env) (s : Fifo)
    → (pass env s).1 ≡ true
    → suc (length (pass env s).0.queued) ≡ length s.queued
pass-shortens env s = case-shortens env s (pass-Case env s)

-- Fuel above the length of the queue is enough.
pub dispatch_loop_total :
    (fuel : ℕ) (env : Env) (s : Fifo)
    → length s.queued < fuel
    → (t : Fifo) × (dispatch_loop fuel env s ≡ some t)
unfolding dispatch_loop
dispatch_loop_total zero env s h = absurd (omega arith)
dispatch_loop_total (suc fuel) env s h = elim (Bool-cases (pass env s).1) [
  | inl more ↦
      rw more
        (dispatch_loop_total fuel env (pass env s).0 (omega (arith, pass-shortens env s more)))
  | inr done ↦ ((pass env s).0, rw done)
]

-- Any two amounts of fuel above the length of the queue give the same result.
dispatch_loop_agree :
    (f g : ℕ) (env : Env) (s : Fifo)
    → length s.queued < f
    → length s.queued < g
    → dispatch_loop f env s ≡ dispatch_loop g env s
unfolding dispatch_loop
dispatch_loop_agree zero g env s h k = absurd (omega arith)
dispatch_loop_agree (suc f) zero env s h k = absurd (omega arith)
dispatch_loop_agree (suc f) (suc g) env s h k = elim (Bool-cases (pass env s).1) [
  | inl more ↦ rw more (
      dispatch_loop_agree f g env (pass env s).0 (omega (arith, pass-shortens env s more))
        (omega (arith, pass-shortens env s more)))
  | inr done ↦ rw done
]

-- tryDispatch runs to its end: with any fuel above the length of the queue the loop gives its
-- result.
pub dispatch_loop-try_dispatch :
    (fuel : ℕ) (env : Env) (s : Fifo)
    → length s.queued < fuel
    → dispatch_loop fuel env s ≡ some (try_dispatch env s)
unfolding try_dispatch
dispatch_loop-try_dispatch fuel env s h =
    let (t, e) = dispatch_loop_total (suc (length s.queued)) env s (omega arith) in
    dispatch_loop_agree fuel _ env s h (omega arith) ∙ e ∙ ap (λ o. some (or_else s o)) (sym e)

module _ {ℓ} (P : Fifo → Type ℓ) (env : Env)
    (keeps : (t : Fifo) (r : Fifo × Bool) → PassCase env t r → P t → P r.0) where
  dispatch_loop-keeps :
      (fuel : ℕ) (u s : Fifo) → P u → P s → P (or_else u (dispatch_loop fuel env s))
  unfolding dispatch_loop
  dispatch_loop-keeps zero u s pu ps = pu
  dispatch_loop-keeps (suc fuel) u s pu ps = elim (Bool-cases (pass env s).1) [
    | inl more ↦
        rw more (dispatch_loop-keeps fuel u (pass env s).0 pu (keeps s _ (pass-Case env s) ps))
    | inr done ↦ rw done (keeps s _ (pass-Case env s) ps)
  ]

  -- What every pass keeps, tryDispatch keeps.
  pub try_dispatch-keeps : (s : Fifo) → P s → P (try_dispatch env s)
  unfolding try_dispatch
  try_dispatch-keeps s ps = dispatch_loop-keeps _ s s ps ps
