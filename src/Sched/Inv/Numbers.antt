-- ===== src/Sched/Inv/Numbers.antt =====
-- internal/router/scheduler/fifo.go: only OnRequest gives numbers to requests.
use infer_swap.Common.{
  ℕ, ◌+◌, ◌%◌, ◌^◌, Bool, true, false, ◌≡◌, refl, ◌∙◌, none, List, ◌∷◌, arith, if-cases, ◌==◌,
  if◌then◌else◌,
}
use infer_swap.Sched.Types.{Fifo, Env, HandlerReq}
use infer_swap.Sched.Gates.{reopen_unused_gates, close_gates, open_gates, arm_drain}
use infer_swap.Sched.Probe.{enter_recovery, set_phase, begin, mark_seen}
use infer_swap.Sched.Dispatch.{
  refuse, grant_head, fail_drain, begin_unload, begin_load, try_dispatch,
}
use infer_swap.Sched.Handlers.{
  admit, reject_admit, enqueue, accept_request, on_request, with_id, count_id,
}
use infer_swap.Sched.Pass.Starts.{Started, joined, sampling, probing}
use infer_swap.Sched.Pass.Cases.{
  EvictCase, expired, draining, barred, unloads, HeadCase, full, refusing, granting, loads,
  evicting, PassCase, in_recovery, starting, resting, acting,
}
use infer_swap.Sched.Pass.Ends.{try_dispatch-keeps}

Started-next_id :
    (head : HandlerReq) (s : Fifo) {t : Fifo} → Started head s t → t.next_id ≡ s.next_id
unfolding enter_recovery set_phase begin mark_seen
Started-next_id head s (joined plan id tok) = refl
Started-next_id head s (sampling plan tok) = refl
Started-next_id head s (probing plan tok id) = refl

grant_head-next_id :
    (env : Env) (head : HandlerReq) (rest : List HandlerReq) (s : Fifo)
    → (grant_head env head rest s).next_id ≡ s.next_id
unfolding grant_head
grant_head-next_id env head rest s = ground arith

evict-next_id :
    (env : Env) (head : HandlerReq) (rest : List HandlerReq) (victims : List ℕ) (s : Fifo)
    {r : Fifo × Bool}
    → EvictCase env head rest victims s r
    → r.0.next_id ≡ s.next_id
unfolding fail_drain refuse begin_unload set_phase open_gates arm_drain
evict-next_id env head rest victims s expired = refl
evict-next_id env head rest victims s (draining _) = refl
evict-next_id env head rest victims s barred = refl
evict-next_id env head rest victims s (unloads _ _) = refl

head-next_id :
    (env : Env) (head : HandlerReq) (rest : List HandlerReq) (s : Fifo) {r : Fifo × Bool}
    → HeadCase env head rest s r
    → r.0.next_id ≡ s.next_id
unfolding refuse begin_load close_gates set_phase
head-next_id env head rest s (full _) = refl
head-next_id env head rest s (refusing err) = refl
head-next_id env head rest s (granting _ _) = grant_head-next_id env head rest s
head-next_id env head rest s (loads _) = refl
head-next_id env head rest s (evicting v vs _ c) =
    evict-next_id env head rest _ (close_gates env (v ∷ vs) s) c

pass-next_id : (env : Env) (s : Fifo) (r : Fifo × Bool) → PassCase env s r → r.0.next_id ≡ s.next_id
unfolding reopen_unused_gates
pass-next_id env s r (in_recovery _) = refl
pass-next_id env s r (starting head rest _ _ st) = Started-next_id head s st
pass-next_id env s r (resting _ _) = refl
pass-next_id env s r (acting head rest _ _ c) =
    head-next_id env head rest (reopen_unused_gates env s) c

next_id-try_dispatch : (env : Env) (s : Fifo) → (try_dispatch env s).next_id ≡ s.next_id
next_id-try_dispatch env s =
    try_dispatch-keeps (λ t. t.next_id ≡ s.next_id) env (λ t r c e. pass-next_id env t r c ∙ e) s
      refl

enqueue-next_id :
    (env : Env) (req : HandlerReq) (r : Fifo × Bool) → (enqueue env req r).next_id ≡ r.0.next_id
unfolding enqueue
enqueue-next_id env req (s, false) = refl
enqueue-next_id env req (s, true) = next_id-try_dispatch env _

admit-next_id :
    (env : Env) (req : HandlerReq) (s : Fifo) → (admit env req none s).0.next_id ≡ s.next_id
unfolding admit
admit-next_id env req s = ground arith

accept_request-next_id :
    (env : Env) (req : HandlerReq) (s : Fifo) → (accept_request env req s).next_id ≡ s.next_id
unfolding accept_request reject_admit
accept_request-next_id env req s =
    ground (arith, enqueue-next_id env req (admit env req none s), admit-next_id env req s)

-- A request that comes without a number raises the last one, whether it is taken or not.
pub next_id-on_request :
    (env : Env) (req : HandlerReq) (s : Fifo)
    → (on_request env req s).next_id ≡ (if req.id == 0 then (s.next_id + 1) % 2 ^ 64 else s.next_id)
unfolding on_request count_id
next_id-on_request env req s =
    accept_request-next_id env (with_id req s) _
    ∙ if-cases
        (λ (t : Fifo). t.next_id ≡ (if req.id == 0 then (s.next_id + 1) % 2 ^ 64 else s.next_id))
        (req.id == 0) (λ h. ground arith) (λ h. ground arith)
