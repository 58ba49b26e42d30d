-- ===== src/Sched/Outcome.antt =====
-- internal/router/scheduler/fifo.go: whom OnUnloadDone and OnSwapDone answer when they are given an error.
use infer_swap.Common.{
  ℕ, Bool, true, false, ◌&&◌, ◌≡◌, refl, sym, ap, ◌∙◌, List, [], ◌∷◌, ◌++◌, ◌==◌, append-nil,
  append_assoc, arith, if-cases, if◌then◌else◌, some,
}
use infer_swap.Sched.Types.{
  Fifo, idle, Env, HandlerReq, Effect, grant_error, Fault, sched, drain_timeout, unload_blocked,
}
use infer_swap.Sched.Gates.{reopen_unused_gates, close_gates, open_gates, arm_drain}
use infer_swap.Sched.Probe.{enter_recovery, set_phase, begin, mark_seen}
use infer_swap.Sched.Dispatch.{
  refuse, grant_head, fail_drain, begin_unload, begin_load, try_dispatch,
}
use infer_swap.Sched.Swaps.{
  is_unloading, is_loading, is_drain_timeout, fail_first, unload_failed, after_unload,
  on_unload_done, load_error, fail_target, after_load, on_swap_done,
}
use infer_swap.Sched.Pass.Starts.{Started, joined, sampling, probing}
use infer_swap.Sched.Pass.Cases.{
  EvictCase, expired, draining, barred, unloads, HeadCase, full, refusing, granting, loads,
  evicting, PassCase, in_recovery, starting, resting, acting,
}
use infer_swap.Sched.Pass.Ends.{try_dispatch-keeps}

-- A trace that goes on from another.
abbrev pub Extends : List Effect → List Effect → Type 0
Extends es fs = (more : List Effect) × (fs ≡ es ++ more)

same : (es : List Effect) → Extends es es
same es = ([], sym (append-nil es))

one : (es : List Effect) (e : Effect) → Extends es (es ++ e ∷ [])
one es e = (e ∷ [], refl)

joins : (es fs gs : List Effect) → Extends es fs → Extends fs gs → Extends es gs
joins es fs gs (a, p) (b, q) = (a ++ b, q ∙ (ap (λ x. x ++ b) p ∙ append_assoc es a b))

grant_head-Extends :
    (env : Env) (head : HandlerReq) (rest : List HandlerReq) (s : Fifo)
    → Extends s.out (grant_head env head rest s).out
unfolding grant_head
grant_head-Extends env head rest s =
    if-cases (λ (t : Fifo). Extends s.out t.out) (env.accepts head) (λ _. one s.out _)
      (λ _. one s.out _)

Started-Extends : (head : HandlerReq) (s : Fifo) {t : Fifo} → Started head s t → Extends s.out t.out
unfolding enter_recovery set_phase begin mark_seen
Started-Extends head s (joined plan id tok) = same s.out
Started-Extends head s (sampling plan tok) = same s.out
Started-Extends head s (probing plan tok id) = one s.out _

evict-Extends :
    (env : Env) (head : HandlerReq) (rest : List HandlerReq) (victims : List ℕ) (s : Fifo)
    {r : Fifo × Bool}
    → EvictCase env head rest victims s r
    → Extends s.out r.0.out
unfolding fail_drain refuse begin_unload set_phase open_gates arm_drain
evict-Extends env head rest victims s expired = one s.out _
evict-Extends env head rest victims s (draining _) =
    if-cases (Extends s.out) s.drain_armed (λ _. same s.out) (λ _. one s.out _)
evict-Extends env head rest victims s barred = one s.out _
evict-Extends env head rest victims s (unloads _ _) = one s.out _

head-Extends :
    (env : Env) (head : HandlerReq) (rest : List HandlerReq) (s : Fifo) {r : Fifo × Bool}
    → HeadCase env head rest s r
    → Extends s.out r.0.out
unfolding refuse begin_load close_gates set_phase
head-Extends env head rest s (full _) = same s.out
head-Extends env head rest s (refusing err) = one s.out _
head-Extends env head rest s (granting _ _) = grant_head-Extends env head rest s
head-Extends env head rest s (loads _) = one s.out _
head-Extends env head rest s (evicting v vs _ c) =
    evict-Extends env head rest _ (close_gates env (v ∷ vs) s) c

pass-Extends : (env : Env) (s : Fifo) (r : Fifo × Bool) → PassCase env s r → Extends s.out r.0.out
unfolding reopen_unused_gates
pass-Extends env s r (in_recovery _) = same s.out
pass-Extends env s r (starting head rest _ _ st) = Started-Extends head s st
pass-Extends env s r (resting _ _) = same s.out
pass-Extends env s r (acting head rest _ q c) =
    head-Extends env head rest (reopen_unused_gates env s) c

try_dispatch-Extends : (env : Env) (s : Fifo) → Extends s.out (try_dispatch env s).out
try_dispatch-Extends env s =
    try_dispatch-keeps (λ t. Extends s.out t.out) env
      (λ t r c e. joins s.out t.out r.0.out e (pass-Extends env t r c)) s (same s.out)

-- The next effect after a trace.
abbrev pub Next : List Effect → Effect → List Effect → Type 0
Next es e fs = (more : List Effect) × (fs ≡ es ++ e ∷ more)

extended :
    (es : List Effect) (e : Effect) (ds fs : List Effect)
    → ds ≡ es ++ e ∷ []
    → Extends ds fs
    → Next es e fs
extended es e ds fs d (more, p) =
    (more, p ∙ (ap (λ x. x ++ more) d ∙ append_assoc es (e ∷ []) more))

fail_first_out :
    (err : Fault) (q : List HandlerReq) (head : HandlerReq) (rest : List HandlerReq) (s : Fifo)
    → q ≡ head ∷ rest
    → (fail_first err q s).out ≡ s.out ++ grant_error head err ∷ []
unfolding fail_first
fail_first_out err q head rest s e = rw e refl

-- A failed unload is told to the request that heads the queue, whatever model that asks for and
-- before anything else happens: that its victims did not drain in time, or else that an unload is
-- blocked.
pub unload_failure_answer :
    (env : Env) (err : Fault) (s : Fifo) (head : HandlerReq) (rest : List HandlerReq)
    → is_unloading s.phase ≡ true
    → s.queued ≡ head ∷ rest
    → Next s.out
        (grant_error head (sched (if is_drain_timeout err then drain_timeout else unload_blocked)))
        (on_unload_done env (some err) s).out
unfolding on_unload_done after_unload unload_failed
unload_failure_answer env err s head rest p q =
    if-cases
      (λ (t : Fifo).
        Next s.out
          (grant_error head
            (sched (if is_drain_timeout err then drain_timeout else unload_blocked)))
          t.out)
      (is_unloading s.phase)
      (λ _.
        extended s.out _ (unload_failed err s).out (try_dispatch env (unload_failed err s)).out
          (fail_first_out _ s.queued head rest _ q)
          (try_dispatch-Extends env (unload_failed err s)))
      (λ n. absurd (ground arith))

fail_target_out :
    (err : Fault) (target : ℕ) (q : List HandlerReq) (head : HandlerReq) (rest : List HandlerReq)
    (s : Fifo)
    → q ≡ head ∷ rest
    → head.model ≡ target
    → (fail_target err target q s).out ≡ s.out ++ grant_error head (load_error err) ∷ []
unfolding fail_target
fail_target_out err target q head rest s e m = rw e (
    if-cases (λ (t : Fifo). t.out ≡ s.out ++ grant_error head (load_error err) ∷ [])
      (head.model == target) (λ _. refl) (λ n. absurd (ground arith)))

-- The swap is over.
abbrev freed : Fifo → Fifo
freed s = record s { phase = idle; unload_began = false; swap_target = 0; swap_evict = [] }

-- A failed load is told to the request that heads the queue if that asks for the model, before
-- anything else happens.
pub load_failure_answer :
    (env : Env) (err : Fault) (s : Fifo) (head : HandlerReq) (rest : List HandlerReq)
    → is_loading s.phase ≡ true
    → s.queued ≡ head ∷ rest
    → head.model ≡ s.swap_target
    → Next s.out
        (grant_error head (load_error err))
        (on_swap_done env s.swap_target (some err) s).out
unfolding on_swap_done after_load fail_target
load_failure_answer env err s head rest p q m =
    if-cases (λ (t : Fifo). Next s.out (grant_error head (load_error err)) t.out)
      (is_loading s.phase && s.swap_target == s.swap_target)
      (λ _.
        extended s.out _ (after_load (some err) s.swap_target (freed s)).out
          (try_dispatch env (after_load (some err) s.swap_target (freed s))).out
          (fail_target_out err s.swap_target s.queued head rest (freed s) q m)
          (try_dispatch-Extends env (after_load (some err) s.swap_target (freed s))))
      (λ n. absurd (ground arith))
