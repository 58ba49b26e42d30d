-- ===== src/Sched/Inv/Victims.antt =====
-- The models that are being unloaded: nothing is granted to them, and their gates stay closed.
use infer_swap.Common.{
  ℕ, Bool, true, false, ◌≡◌, refl, sym, ap, subst, ◌∙◌, Option, none, some, List, [], ◌∷◌, arith,
  contains,
}
use infer_swap.Sched.Types.{Fifo, Env, HandlerReq, Fault, idle, unloading, sample}
use infer_swap.Sched.Load.{slots, any_busy, is_recovering}
use infer_swap.Sched.Gates.{reopen_unused_gates, close_gates, open_gates, arm_drain}
use infer_swap.Sched.Probe.{enter_recovery, set_phase, begin, mark_seen, leave_recovery}
use infer_swap.Sched.Dispatch.{refuse, grant_head, fail_drain, begin_unload, begin_load}
use infer_swap.Sched.Handlers.{new, give_back, end_serve, on_proxy_start, apply_backend}
use infer_swap.Sched.Swaps.{is_unloading, unload_failed, unload_succeeded, after_load, on_shutdown}
use infer_swap.Sched.Pass.Starts.{Started, joined, sampling, probing}
use infer_swap.Sched.Pass.Cases.{
  EvictCase, expired, draining, barred, unloads, HeadCase, full, refusing, granting, loads,
  evicting, PassCase, in_recovery, starting, resting, acting,
}
use infer_swap.Sched.Step.{Reachable}
use infer_swap.Sched.Changes.{Change, noted, backend_seen, probed, sampled, left, failed}
use infer_swap.Sched.Works.{
  Work, passes, changes, proxies, gives_back, ends_serve, backend_ends, unload_fails, unloaded,
  load_ends, reminded, shuts,
}
use infer_swap.Sched.Acts.{Act, works, counted, replied, queues, withdraws, Reachable-keeps}

abbrev Victims : Fifo → Type 0
Victims s =
    (s.unload_began ≡ is_unloading s.phase)
    × ((v : ℕ)
        → s.phase ≡ unloading
        → contains v s.swap_evict ≡ true
        → (slots s v ≡ 0) × (s.gate_closed v ≡ true))

-- Outside an unload there is nothing to show but that none has begun.
no_unload : (s : Fifo) → is_unloading s.phase ≡ false → s.unload_began ≡ false → Victims s
no_unload s p b = (ground arith, λ v e. cc)

not_begun : (s : Fifo) → s.phase ≡ idle → Victims s → s.unload_began ≡ false
not_begun s p h = ground (arith, h.0)

any_busy-slots :
    (s : Fifo) (ids : List ℕ) (v : ℕ)
    → any_busy s ids ≡ false
    → contains v ids ≡ true
    → slots s v ≡ 0
unfolding any_busy slots
any_busy-slots s [] v b c = cc
any_busy-slots s (id ∷ ids) v b c = ground (arith, any_busy-slots s ids v)

Started-Victims :
    (head : HandlerReq) (s : Fifo) {t : Fifo}
    → Started head s t
    → s.phase ≡ idle
    → Victims s
    → Victims t
unfolding enter_recovery set_phase begin mark_seen
Started-Victims head s (joined plan id tok) p h = no_unload _ refl (not_begun s p h)
Started-Victims head s (sampling plan tok) p h = no_unload _ refl (not_begun s p h)
Started-Victims head s (probing plan tok id) p h = no_unload _ refl (not_begun s p h)

begin_unload-Victims :
    (env : Env) (head : HandlerReq) (victims : List ℕ) (s : Fifo)
    → any_busy (close_gates env victims s) victims ≡ false
    → Victims (begin_unload env head victims (close_gates env victims s))
unfolding begin_unload close_gates set_phase slots
begin_unload-Victims env head victims s quiet =
    (refl, λ v _ c. (any_busy-slots (close_gates env victims s) victims v quiet c, rw c))

evict-Victims :
    (env : Env) (head : HandlerReq) (rest : List HandlerReq) (victims : List ℕ) (s : Fifo)
    {r : Fifo × Bool}
    → EvictCase env head rest victims (close_gates env victims s) r
    → s.phase ≡ idle
    → s.unload_began ≡ false
    → Victims r.0
unfolding fail_drain refuse begin_unload close_gates set_phase open_gates arm_drain
evict-Victims env head rest victims s expired p b = no_unload _ (rw p) b
evict-Victims env head rest victims s (draining _) p b = no_unload _ (rw p) b
evict-Victims env head rest victims s barred p b = no_unload _ (rw p) b
evict-Victims env head rest victims s (unloads quiet _) p b =
    begin_unload-Victims env head victims s quiet

head-Victims :
    (env : Env) (head : HandlerReq) (rest : List HandlerReq) (s : Fifo) {r : Fifo × Bool}
    → HeadCase env head rest s r
    → s.phase ≡ idle
    → s.unload_began ≡ false
    → Victims r.0
unfolding refuse begin_load close_gates set_phase grant_head
head-Victims env head rest s (full _) p b = no_unload _ (rw p) b
head-Victims env head rest s (refusing err) p b = no_unload _ (rw p) b
head-Victims env head rest s (granting free _) p b = no_unload _ (ground arith) (ground arith)
head-Victims env head rest s (loads _) p b = no_unload _ refl b
head-Victims env head rest s (evicting v vs _ c) p b = evict-Victims env head rest _ s c p b

-- While an unload is under way the unused gates stay as they are.
reopen-Victims : (env : Env) (s : Fifo) → Victims s → Victims (reopen_unused_gates env s)
unfolding reopen_unused_gates slots
reopen-Victims env s h = (h.0, λ v p c. ((h.1 v p c).0, ground (arith, h.0, (h.1 v p c).1)))

pass-Victims : (env : Env) (s : Fifo) (r : Fifo × Bool) → PassCase env s r → Victims s → Victims r.0
unfolding reopen_unused_gates
pass-Victims env s r (in_recovery _) h = h
pass-Victims env s r (starting head rest p _ st) h = Started-Victims head s st p h
pass-Victims env s r (resting _ _) h = reopen-Victims env s h
pass-Victims env s r (acting head rest p _ c) h = head-Victims env head rest _ c p (not_begun s p h)

leaving : (s : Fifo) → is_recovering s.phase ≡ true → Victims s → s.unload_began ≡ false
leaving s p h = ground (arith, h.0)

Change-Victims : {s t : Fifo} → Change s t → Victims s → Victims t
unfolding apply_backend begin mark_seen set_phase leave_recovery refuse slots
Change-Victims (noted _ _ _ _ _ _ _ _ _ _ _) h = h
Change-Victims (backend_seen model active proof) h =
    (h.0, λ v p c. (ground (arith, (h.1 v p c).0), (h.1 v p c).1))
Change-Victims (probed id) h = h
Change-Victims {s} (sampled p) h = no_unload (set_phase sample s) refl (leaving s (rw p) h)
Change-Victims {s} (left p) h = no_unload (leave_recovery s) refl (leaving s p h)
Change-Victims (failed _ _ _ _) h = h

-- A handler that only moves work from one count to the next, or drops some.
lighter :
    (s t : Fifo)
    → t.unload_began ≡ s.unload_began
    → t.phase ≡ s.phase
    → t.swap_evict ≡ s.swap_evict
    → ((v : ℕ) → t.gate_closed v ≡ s.gate_closed v)
    → ((v : ℕ) → slots s v ≡ 0 → slots t v ≡ 0)
    → Victims s
    → Victims t
lighter s t b p e g l h = (
  b ∙ h.0 ∙ ap is_unloading (sym p),
  λ v q c.
      let old = h.1 v (sym p ∙ q) (subst (λ ids. contains v ids ≡ true) e c) in
      (l v old.0, g v ∙ old.1),
)

proxy-Victims : (model : ℕ) (s : Fifo) → Victims s → Victims (on_proxy_start model s)
unfolding on_proxy_start slots
proxy-Victims model s h =
    lighter s (on_proxy_start model s) (ground arith) (ground arith) (ground arith)
      (λ v. ground arith) (λ v z. ground arith) h

give_back-Victims : (model : ℕ) (s : Fifo) → Victims s → Victims (give_back model s)
unfolding give_back slots
give_back-Victims model s h =
    lighter s (give_back model s) (ground arith) (ground arith) (ground arith) (λ v. ground arith)
      (λ v z. ground arith) h

end_serve-Victims : (model : ℕ) (s : Fifo) → Victims s → Victims (end_serve model s)
unfolding end_serve slots
end_serve-Victims model s h =
    lighter s (end_serve model s) (ground arith) (ground arith) (ground arith) (λ v. ground arith)
      (λ v z. ground arith) h

unloaded-Victims : (env : Env) (s : Fifo) → Victims (unload_succeeded env s)
unfolding unload_succeeded reopen_unused_gates
unloaded-Victims env s = no_unload (unload_succeeded env s) refl refl

unload_failed-Victims : (err : Fault) (s : Fifo) → Victims (unload_failed err s)
unfolding unload_failed
unload_failed-Victims err s = no_unload (unload_failed err s) (ground arith) (ground arith)

after_load-Victims :
    (err : Option Fault) (target : ℕ) (s : Fifo)
    → s.phase ≡ idle
    → s.unload_began ≡ false
    → Victims (after_load err target s)
unfolding after_load
after_load-Victims none target s p b = no_unload s (rw p) b
after_load-Victims (some err) target s p b =
    no_unload (after_load (some err) target s) (ground arith) (ground arith)

work-Victims : (env : Env) (s t : Fifo) → Work env s t → Victims s → Victims t
unfolding on_shutdown slots
work-Victims env s t (passes _ b c) h = pass-Victims env s (t, b) c h
work-Victims env s t (changes c) h = Change-Victims c h
work-Victims env s t (proxies model) h = proxy-Victims model s h
work-Victims env s t (gives_back model) h = give_back-Victims model s h
work-Victims env s t (ends_serve model) h = end_serve-Victims model s h
work-Victims env s t (backend_ends _) h = h
work-Victims env s t (unload_fails err _) h = unload_failed-Victims err s
work-Victims env s t (unloaded _) h = unloaded-Victims env s
work-Victims env s t (load_ends err _) h = after_load-Victims err _ _ refl refl
work-Victims env s t reminded h = h
work-Victims env s t (shuts _) h = h

Act-Victims : (env : Env) (s t : Fifo) → Act env s t → Victims s → Victims t
unfolding slots
Act-Victims env s t (works w) h = work-Victims env s t w h
Act-Victims env s t (counted _) h = h
Act-Victims env s t (replied _ _) h = h
Act-Victims env s t (queues _ _) h = h
Act-Victims env s t (withdraws _ _ _ _) h = h

new-Victims :
    (limits : ℕ → ℕ) (queue_size drain_time : ℕ) → Victims (new limits queue_size drain_time)
unfolding new
new-Victims l q d = (refl, λ v e. cc)

-- In every reachable state in which models are being unloaded, none of them has a granted, a
-- proxied or an unproved call, and the gate of each is closed.
pub unloading_victims_idle :
    {s : Fifo}
    → Reachable s
    → s.phase ≡ unloading
    → (v : ℕ) → contains v s.swap_evict ≡ true
    → (slots s v ≡ 0) × (s.gate_closed v ≡ true)
unloading_victims_idle r p v c = (Reachable-keeps Victims Act-Victims new-Victims r).1 v p c
