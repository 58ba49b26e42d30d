-- ===== src/Sched/Inv/Bounds.antt =====
-- The queue's length, and the bookkeeping of the recovery and of the gates.
use infer_swap.Common.{
  ℕ, suc, ◌≤◌, Bool, true, false, ◌≡◌, refl, ap, subst, Option, none, some, List, [], ◌∷◌, arith,
  length, length-append, if-cases, ◌==◌, ltb,
}
use infer_swap.Sched.Types.{Fifo, Env, HandlerReq, Fault, idle, unloading}
use infer_swap.Sched.Load.{is_recovering}
use infer_swap.Sched.Gates.{reopen_unused_gates, close_gates, open_gates, arm_drain}
use infer_swap.Sched.Probe.{enter_recovery, set_phase, begin, mark_seen, leave_recovery}
use infer_swap.Sched.Dispatch.{refuse, grant_head, fail_drain, begin_unload, begin_load}
use infer_swap.Sched.Handlers.{new, take_id, give_back, end_serve, on_proxy_start, apply_backend}
use infer_swap.Sched.Swaps.{
  unload_failed, unload_succeeded, after_load, on_shutdown, fail_first, fail_target,
}
use infer_swap.Sched.Pass.Starts.{Started, joined, sampling, probing}
use infer_swap.Sched.Pass.Cases.{
  EvictCase, expired, draining, barred, unloads, HeadCase, full, refusing, granting, loads,
  evicting, PassCase, in_recovery, starting, resting, acting,
}
use infer_swap.Sched.Step.{Reachable}
use infer_swap.Sched.Changes.{Change, noted, backend_seen, probed, sampled, left, failed}
use infer_swap.Sched.Works.{
  Work, passes, changes, proxies, gives_back, ends_serve, backend_ends, unload_fails, unloaded,
  load_ends, reminded, shuts,
}
use infer_swap.Sched.Acts.{Act, works, counted, replied, queues, withdraws, Reachable-keeps}

abbrev pub is_some {ℓ} : {A : Type ℓ} → Option A → Bool
is_some none = false
is_some (some a) = true

abbrev Stamped : Fifo → Type 0
Stamped s = (id : ℕ) → is_some (s.gate_at id) ≡ s.gate_closed id

abbrev Unowned : Fifo → Type 0
Unowned s = is_recovering s.phase ≡ false → (s.recover_token ≡ 0) × (s.recover_owner ≡ 0)

-- The queue is within its bound, a gate has a closing time exactly if it is closed, and outside a
-- recovery no request owns one.
abbrev Kept : Fifo → Type 0
Kept s = (length s.queued ≤ s.max_q) × Stamped s × Unowned s

close_gates-Stamped :
    (env : Env) (ids : List ℕ) (s : Fifo) → Stamped s → Stamped (close_gates env ids s)
unfolding close_gates
close_gates-Stamped env ids s h id = ground (arith, h id)

open_gates-Stamped : (ids : List ℕ) (s : Fifo) → Stamped s → Stamped (open_gates ids s)
unfolding open_gates
open_gates-Stamped ids s h id = ground (arith, h id)

reopen-Stamped : (env : Env) (s : Fifo) → Stamped s → Stamped (reopen_unused_gates env s)
unfolding reopen_unused_gates
reopen-Stamped env s h id = ground (arith, h id)

shorter :
    (q rest : List HandlerReq) (head : HandlerReq) (n : ℕ)
    → q ≡ head ∷ rest
    → length q ≤ n
    → length rest ≤ n
shorter q rest head n e h = omega (arith, ap (λ (l : List HandlerReq). length l) e)

Started-Kept : (head : HandlerReq) (s : Fifo) {t : Fifo} → Started head s t → Kept s → Kept t
unfolding enter_recovery set_phase begin mark_seen
Started-Kept head s (joined plan id tok) h = (h.0, h.1, λ e. cc)
Started-Kept head s (sampling plan tok) h = (h.0, h.1, λ e. cc)
Started-Kept head s (probing plan tok id) h = (h.0, h.1, λ e. cc)

grant_head-Kept :
    (env : Env) (head : HandlerReq) (rest : List HandlerReq) (s : Fifo)
    → s.queued ≡ head ∷ rest
    → Kept s
    → Kept (grant_head env head rest s)
unfolding grant_head
grant_head-Kept env head rest s q h =
    if-cases Kept (env.accepts head) (λ _. shorter_books) (λ _. shorter_books)
  where
    shorter_books : (length rest ≤ s.max_q) × Stamped s × Unowned s
    shorter_books = (shorter s.queued rest head s.max_q q h.0, h.1, h.2)

evict-Kept :
    (env : Env) (head : HandlerReq) (rest : List HandlerReq) (victims : List ℕ) (s : Fifo)
    {r : Fifo × Bool}
    → EvictCase env head rest victims s r
    → s.queued ≡ head ∷ rest
    → s.phase ≡ idle
    → Kept s
    → Kept r.0
unfolding fail_drain refuse begin_unload set_phase arm_drain open_gates
evict-Kept env head rest victims s expired q p h =
    (shorter s.queued rest head s.max_q q h.0, open_gates-Stamped victims s h.1, h.2)
evict-Kept env head rest victims s (draining _) q p h = h
evict-Kept env head rest victims s barred q p h =
    (shorter s.queued rest head s.max_q q h.0, h.1, h.2)
evict-Kept env head rest victims s (unloads _ _) q p h = (h.0, h.1, λ _. h.2 (rw p))

head-Kept :
    (env : Env) (head : HandlerReq) (rest : List HandlerReq) (s : Fifo) {r : Fifo × Bool}
    → HeadCase env head rest s r
    → s.queued ≡ head ∷ rest
    → s.phase ≡ idle
    → Kept s
    → Kept r.0
unfolding refuse begin_load close_gates set_phase
head-Kept env head rest s (full _) q p h = h
head-Kept env head rest s (refusing err) q p h =
    (shorter s.queued rest head s.max_q q h.0, h.1, h.2)
head-Kept env head rest s (granting _ _) q p h = grant_head-Kept env head rest s q h
head-Kept env head rest s (loads _) q p h = (h.0, h.1, λ _. h.2 (rw p))
head-Kept env head rest s (evicting v vs _ c) q p h =
    evict-Kept env head rest _ (close_gates env (v ∷ vs) s) c q p
      (h.0, close_gates-Stamped env (v ∷ vs) s h.1, h.2)

pass-Kept : (env : Env) (s : Fifo) (r : Fifo × Bool) → PassCase env s r → Kept s → Kept r.0
unfolding reopen_unused_gates
pass-Kept env s r (in_recovery _) h = h
pass-Kept env s r (starting head rest _ _ st) h = Started-Kept head s st h
pass-Kept env s r (resting _ _) h = (h.0, reopen-Stamped env s h.1, h.2)
pass-Kept env s r (acting head rest p q c) h =
    head-Kept env head rest (reopen_unused_gates env s) c q p (h.0, reopen-Stamped env s h.1, h.2)

Change-Kept : {s t : Fifo} → Change s t → Kept s → Kept t
unfolding apply_backend begin mark_seen set_phase leave_recovery refuse
Change-Kept (noted _ _ _ _ _ _ _ _ _ _ _) h = h
Change-Kept (backend_seen model active proof) h = h
Change-Kept (probed id) h = h
Change-Kept (sampled _) h = (h.0, h.1, λ e. cc)
Change-Kept (left _) h = (h.0, h.1, λ _. (refl, refl))
Change-Kept {s} (failed err head rest q) h = (shorter s.queued rest head s.max_q q h.0, h.1, h.2)

fail_first-Kept :
    (err : Fault) (q : List HandlerReq) (s : Fifo)
    → s.queued ≡ q
    → Kept s
    → Kept (fail_first err q s)
unfolding fail_first
fail_first-Kept err [] s e h = h
fail_first-Kept err (head ∷ rest) s e h = (shorter s.queued rest head s.max_q e h.0, h.1, h.2)

fail_target-Kept :
    (err : Fault) (target : ℕ) (q : List HandlerReq) (s : Fifo)
    → s.queued ≡ q
    → Kept s
    → Kept (fail_target err target q s)
unfolding fail_target
fail_target-Kept err target [] s e h = h
fail_target-Kept err target (head ∷ rest) s e h =
    if-cases Kept (head.model == target) (λ _. (shorter s.queued rest head s.max_q e h.0, h.1, h.2))
      (λ _. h)

after_load-Kept :
    (err : Option Fault) (target : ℕ) (s : Fifo) → Kept s → Kept (after_load err target s)
unfolding after_load
after_load-Kept none target s h = h
after_load-Kept (some err) target s h = fail_target-Kept err target s.queued s refl h

unload_failed-Kept :
    (err : Fault) (s : Fifo) → s.phase ≡ unloading → Kept s → Kept (unload_failed err s)
unfolding unload_failed
unload_failed-Kept err s p h = fail_first-Kept _ s.queued _ refl (h.0, h.1, λ _. h.2 (rw p))

proxy-Kept : (model : ℕ) (s : Fifo) → Kept s → Kept (on_proxy_start model s)
unfolding on_proxy_start
proxy-Kept model s h = if-cases Kept (ltb 0 (s.pending model)) (λ _. h) (λ _. h)

give_back-Kept : (model : ℕ) (s : Fifo) → Kept s → Kept (give_back model s)
unfolding give_back
give_back-Kept model s h = if-cases Kept (ltb 0 (s.pending model)) (λ _. h) (λ _. h)

end_serve-Kept : (model : ℕ) (s : Fifo) → Kept s → Kept (end_serve model s)
unfolding end_serve
end_serve-Kept model s h = if-cases Kept (ltb 0 (s.http_in model)) (λ _. h) (λ _. h)

unloaded-Kept :
    (env : Env) (s : Fifo) → s.phase ≡ unloading → Kept s → Kept (unload_succeeded env s)
unfolding unload_succeeded reopen_unused_gates open_gates
unloaded-Kept env s p h =
    (h.0, reopen-Stamped env opened (open_gates-Stamped s.swap_evict s h.1), λ _. h.2 (rw p))
  where
    opened : Fifo
    opened = record (open_gates s.swap_evict s) {
      phase = idle;
      unload_began = false;
      swap_target = 0;
      swap_evict = [];
    }

work-Kept : (env : Env) (s t : Fifo) → Work env s t → Kept s → Kept t
unfolding on_shutdown
work-Kept env s t (passes _ b c) h = pass-Kept env s (t, b) c h
work-Kept env s t (changes c) h = Change-Kept c h
work-Kept env s t (proxies model) h = proxy-Kept model s h
work-Kept env s t (gives_back model) h = give_back-Kept model s h
work-Kept env s t (ends_serve model) h = end_serve-Kept model s h
work-Kept env s t (backend_ends _) h = h
work-Kept env s t (unload_fails err p) h = unload_failed-Kept err s p h
work-Kept env s t (unloaded p) h = unloaded-Kept env s p h
work-Kept env s t (load_ends err p) h = after_load-Kept err _ _ (h.0, h.1, λ _. h.2 (rw p))
work-Kept env s t reminded h = h
work-Kept env s t (shuts _) h = (omega arith, h.1, h.2)

abbrev Shorter : ℕ → Option (HandlerReq × List HandlerReq) → Type 0
Shorter n none = Unit {0}
Shorter n (some (q, rest)) = suc (length rest) ≡ n

-- Taking a request out leaves one fewer.
take_id-Shorter : (id : ℕ) (l : List HandlerReq) → Shorter (length l) (take_id id l)
unfolding take_id
take_id-Shorter id [] = tt
take_id-Shorter id (x ∷ l) =
    if-cases (Shorter (suc (length l))) (x.id == id) (λ _. refl)
      (λ _. longer (take_id id l) (take_id-Shorter id l))
  where
    longer :
        (o : Option (HandlerReq × List HandlerReq))
        → Shorter (length l) o
        → Shorter (suc (length l)) (elim o [ none ↦ none | some (r, rs) ↦ some (r, x ∷ rs) ])
    longer none h = tt
    longer (some (r, rs)) h = ap suc h

length-take_id :
    (id : ℕ) (l rest : List HandlerReq) (q : HandlerReq)
    → take_id id l ≡ some (q, rest)
    → suc (length rest) ≡ length l
length-take_id id l rest q e = subst (Shorter (length l)) e (take_id-Shorter id l)

Act-Kept : (env : Env) (s t : Fifo) → Act env s t → Kept s → Kept t
Act-Kept env s t (works w) h = work-Kept env s t w h
Act-Kept env s t (counted _) h = h
Act-Kept env s t (replied _ _) h = h
Act-Kept env s t (queues req room) h = (omega (arith, length-append s.queued (req ∷ [])), h.1, h.2)
Act-Kept env s t (withdraws id q rest e) h =
    (omega (arith, h.0, length-take_id id s.queued rest q e), h.1, h.2)

new-Kept : (limits : ℕ → ℕ) (queue_size drain_time : ℕ) → Kept (new limits queue_size drain_time)
unfolding new
new-Kept l q d = (ground arith, λ id. refl, λ _. (refl, refl))

Reachable-Kept : {s : Fifo} → Reachable s → Kept s
Reachable-Kept r = Reachable-keeps Kept Act-Kept new-Kept r

-- In every reachable state the queue holds at most `maxQ` requests.
pub queued-le-max : {s : Fifo} → Reachable s → length s.queued ≤ s.max_q
queued-le-max r = (Reachable-Kept r).0

-- In every reachable state a gate has a closing time exactly if it is closed, so that the drain of a
-- closed model always has its deadline.
pub gate_stamped : {s : Fifo} → Reachable s → (id : ℕ) → is_some (s.gate_at id) ≡ s.gate_closed id
gate_stamped r = (Reachable-Kept r).1

-- In every reachable state outside a recovery, no token and no owner of one is left.
pub recovery_unowned :
    {s : Fifo}
    → Reachable s
    → is_recovering s.phase ≡ false
    → (s.recover_token ≡ 0) × (s.recover_owner ≡ 0)
recovery_unowned r = (Reachable-Kept r).2
