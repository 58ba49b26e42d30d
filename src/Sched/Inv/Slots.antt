-- ===== src/Sched/Inv/Slots.antt =====
-- The concurrency limit: the slots of a model that are taken never pass its limit.
use infer_swap.Common.{ℕ, ◌≤◌, ◌<◌, Bool, Option, none, some, List, arith}
use infer_swap.Sched.Types.{Fifo, Env, HandlerReq, Fault}
use infer_swap.Sched.Load.{slots, limit}
use infer_swap.Sched.Gates.{reopen_unused_gates, close_gates, open_gates, arm_drain}
use infer_swap.Sched.Probe.{enter_recovery, set_phase, begin, mark_seen, leave_recovery}
use infer_swap.Sched.Dispatch.{refuse, grant_head, fail_drain, begin_unload, begin_load}
use infer_swap.Sched.Handlers.{new, give_back, end_serve, on_proxy_start, apply_backend}
use infer_swap.Sched.Pass.Starts.{Started, joined, sampling, probing}
use infer_swap.Sched.Pass.Cases.{
  EvictCase, expired, draining, barred, unloads, HeadCase, full, refusing, granting, loads,
  evicting, PassCase, in_recovery, starting, resting, acting,
}
use infer_swap.Sched.Swaps.{unload_failed, unload_succeeded, after_load, on_shutdown}
use infer_swap.Sched.Step.{Reachable}
use infer_swap.Sched.Changes.{Change, noted, backend_seen, probed, sampled, left, failed}
use infer_swap.Sched.Works.{
  Work, passes, changes, proxies, gives_back, ends_serve, backend_ends, unload_fails, unloaded,
  load_ends, reminded, shuts,
}
use infer_swap.Sched.Acts.{Act, works, counted, replied, queues, withdraws, Reachable-keeps}

abbrev pub WithinLimits : Fifo → Type 0
WithinLimits s = (m : ℕ) → slots s m ≤ limit s m

grant_head-WithinLimits :
    (env : Env) (head : HandlerReq) (rest : List HandlerReq) (s : Fifo)
    → slots s head.model < limit s head.model
    → WithinLimits s
    → WithinLimits (grant_head env head rest s)
unfolding grant_head slots limit
grant_head-WithinLimits env head rest s free h m = ground (arith, h m)

Started-WithinLimits :
    (head : HandlerReq) (s : Fifo) {t : Fifo} → Started head s t → WithinLimits s → WithinLimits t
unfolding slots limit enter_recovery set_phase begin mark_seen
Started-WithinLimits head s (joined plan id tok) h m = h m
Started-WithinLimits head s (sampling plan tok) h m = h m
Started-WithinLimits head s (probing plan tok id) h m = h m

evict-WithinLimits :
    (env : Env) (head : HandlerReq) (rest : List HandlerReq) (victims : List ℕ) (s : Fifo)
    {r : Fifo × Bool}
    → EvictCase env head rest victims s r
    → WithinLimits s
    → WithinLimits r.0
unfolding slots limit fail_drain refuse arm_drain begin_unload open_gates
evict-WithinLimits env head rest victims s expired h m = h m
evict-WithinLimits env head rest victims s (draining _) h m = h m
evict-WithinLimits env head rest victims s barred h m = h m
evict-WithinLimits env head rest victims s (unloads _ _) h m = h m

head-WithinLimits :
    (env : Env) (head : HandlerReq) (rest : List HandlerReq) (s : Fifo) {r : Fifo × Bool}
    → HeadCase env head rest s r
    → WithinLimits s
    → WithinLimits r.0
unfolding slots limit refuse begin_load close_gates
head-WithinLimits env head rest s (full _) h = h
head-WithinLimits env head rest s (refusing err) h = h
head-WithinLimits env head rest s (granting free _) h =
    grant_head-WithinLimits env head rest s free h
head-WithinLimits env head rest s (loads _) h = h
head-WithinLimits env head rest s (evicting v vs _ c) h = evict-WithinLimits env head rest _ _ c h

pub pass-WithinLimits :
    (env : Env) (s : Fifo) (r : Fifo × Bool) → PassCase env s r → WithinLimits s → WithinLimits r.0
unfolding slots limit reopen_unused_gates
pass-WithinLimits env s r (in_recovery _) h = h
pass-WithinLimits env s r (starting head rest _ _ st) h = Started-WithinLimits head s st h
pass-WithinLimits env s r (resting _ _) h = h
pass-WithinLimits env s r (acting head rest _ _ c) h = head-WithinLimits env head rest _ c h

Change-WithinLimits : {s t : Fifo} → Change s t → WithinLimits s → WithinLimits t
unfolding slots limit apply_backend begin mark_seen set_phase leave_recovery refuse
Change-WithinLimits (noted _ _ _ _ _ _ _ _ _ _ _) h m = h m
Change-WithinLimits (backend_seen model active proof) h m = ground (arith, h m)
Change-WithinLimits (probed id) h m = h m
Change-WithinLimits (sampled _) h m = h m
Change-WithinLimits (left _) h m = h m
Change-WithinLimits (failed _ _ _ _) h m = h m

unload_failed-WithinLimits :
    (err : Fault) (s : Fifo) → WithinLimits s → WithinLimits (unload_failed err s)
unfolding slots limit unload_failed
unload_failed-WithinLimits err s h m = ground (arith, h m)

after_load-WithinLimits :
    (err : Option Fault) (target : ℕ) (s : Fifo)
    → WithinLimits s
    → WithinLimits (after_load err target s)
unfolding slots limit after_load
after_load-WithinLimits none target s h m = h m
after_load-WithinLimits (some err) target s h m = ground (arith, h m)

work-WithinLimits : (env : Env) (s t : Fifo) → Work env s t → WithinLimits s → WithinLimits t
unfolding slots limit on_proxy_start give_back end_serve unload_failed unload_succeeded after_load
    open_gates reopen_unused_gates on_shutdown
work-WithinLimits env s t (passes _ b c) h m = pass-WithinLimits env s (t, b) c h m
work-WithinLimits env s t (changes c) h m = Change-WithinLimits c h m
work-WithinLimits env s t (proxies model) h m = ground (arith, h m)
work-WithinLimits env s t (gives_back model) h m = ground (arith, h m)
work-WithinLimits env s t (ends_serve model) h m = ground (arith, h m)
work-WithinLimits env s t (backend_ends _) h m = h m
work-WithinLimits env s t (unload_fails err _) h m = unload_failed-WithinLimits err s h m
work-WithinLimits env s t (unloaded _) h m = h m
work-WithinLimits env s t (load_ends err _) h m = after_load-WithinLimits err _ _ h m
work-WithinLimits env s t reminded h m = h m
work-WithinLimits env s t (shuts _) h m = h m

Act-WithinLimits : (env : Env) (s t : Fifo) → Act env s t → WithinLimits s → WithinLimits t
unfolding slots limit
Act-WithinLimits env s t (works w) h m = work-WithinLimits env s t w h m
Act-WithinLimits env s t (counted _) h m = h m
Act-WithinLimits env s t (replied _ _) h m = h m
Act-WithinLimits env s t (queues _ _) h m = h m
Act-WithinLimits env s t (withdraws _ _ _ _) h m = h m

new-WithinLimits :
    (limits : ℕ → ℕ) (queue_size drain_time : ℕ) → WithinLimits (new limits queue_size drain_time)
unfolding slots limit new
new-WithinLimits l q d m = omega arith

-- In every reachable state the granted, the proxied and the unproved calls of a model together
-- stay within its concurrency limit.
pub slots-le-limit : {s : Fifo} → Reachable s → (m : ℕ) → slots s m ≤ limit s m
slots-le-limit r = Reachable-keeps WithinLimits Act-WithinLimits new-WithinLimits r
