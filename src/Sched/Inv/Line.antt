-- ===== src/Sched/Inv/Line.antt =====
-- First come, first served: the requests that were answered, in order, and those that still queue
-- make one line, and tryDispatch only moves the border between the two.
use infer_swap.Common.{
  ℕ, Bool, false, ◌≡◌, refl, sym, ap, ◌∙◌, Option, none, some, List, [], ◌∷◌, ◌++◌, append-nil,
  append_assoc, if-cases, ◌==◌, ltb,
}
use infer_swap.Sched.Types.{Fifo, Env, HandlerReq, Fault, Effect, grant_error, grant_serve}
use infer_swap.Sched.Gates.{reopen_unused_gates, close_gates, open_gates, arm_drain}
use infer_swap.Sched.Probe.{enter_recovery, set_phase, begin, mark_seen, leave_recovery}
use infer_swap.Sched.Dispatch.{
  refuse, grant_head, fail_drain, begin_unload, begin_load, try_dispatch,
}
use infer_swap.Sched.Handlers.{give_back, end_serve, on_proxy_start, apply_backend}
use infer_swap.Sched.Swaps.{
  unload_failed, unload_succeeded, after_load, on_shutdown, refusals, fail_first, fail_target,
}
use infer_swap.Sched.Pass.Starts.{Started, joined, sampling, probing}
use infer_swap.Sched.Pass.Cases.{
  EvictCase, expired, draining, barred, unloads, HeadCase, full, refusing, granting, loads,
  evicting, PassCase, in_recovery, starting, resting, acting,
}
use infer_swap.Sched.Pass.Ends.{try_dispatch-keeps}
use infer_swap.Sched.Step.{Event, step}
use infer_swap.Sched.Changes.{Change, noted, backend_seen, probed, sampled, left, failed}
use infer_swap.Sched.Works.{
  Work, passes, changes, proxies, gives_back, ends_serve, backend_ends, unload_fails, unloaded,
  load_ends, reminded, shuts, Works, start, next, is_queue_event, step-Works,
}

-- The requests that a trace of effects answers.
abbrev pub answered : List Effect → List HandlerReq
answered [] = []
answered (grant_error req err ∷ es) = req ∷ answered es
answered (grant_serve req model taken ∷ es) = req ∷ answered es
answered (_ ∷ es) = answered es

pub answered-append : (xs ys : List Effect) → answered (xs ++ ys) ≡ answered xs ++ answered ys
answered-append [] ys = refl
answered-append (grant_error req err ∷ xs) ys = ap (◌∷◌ req) (answered-append xs ys)
answered-append (grant_serve req m b ∷ xs) ys = ap (◌∷◌ req) (answered-append xs ys)
answered-append (Effect.start_unload _ _ ∷ xs) ys = answered-append xs ys
answered-append (Effect.remind _ ∷ xs) ys = answered-append xs ys
answered-append (Effect.start_load _ ∷ xs) ys = answered-append xs ys
answered-append (Effect.begin_probe _ _ ∷ xs) ys = answered-append xs ys
answered-append (Effect.admit_reply _ _ ∷ xs) ys = answered-append xs ys
answered-append (Effect.proxy_reply _ _ ∷ xs) ys = answered-append xs ys

abbrev pub line : Fifo → List HandlerReq
line s = answered s.out ++ s.queued

-- The head is answered.
pub moved :
    (out : List Effect) (e : Effect) (head : HandlerReq) (rest : List HandlerReq)
    → answered (e ∷ []) ≡ head ∷ []
    → answered (out ++ e ∷ []) ++ rest ≡ answered out ++ head ∷ rest
moved out e head rest h =
    rw (answered-append out (e ∷ []), h) (append_assoc (answered out) (head ∷ []) rest)

-- Nobody is answered.
pub silent :
    (out : List Effect) (e : Effect) (q : List HandlerReq)
    → answered (e ∷ []) ≡ []
    → answered (out ++ e ∷ []) ++ q ≡ answered out ++ q
silent out e q h = rw (answered-append out (e ∷ []), h, append-nil)

grant_head-line :
    (env : Env) (head : HandlerReq) (rest : List HandlerReq) (s : Fifo)
    → line (grant_head env head rest s) ≡ answered s.out ++ head ∷ rest
unfolding grant_head
grant_head-line env head rest s =
    if-cases (λ (t : Fifo). line t ≡ answered s.out ++ head ∷ rest) (env.accepts head)
      (λ _. moved s.out _ head rest refl) (λ _. moved s.out _ head rest refl)

Started-line : (head : HandlerReq) (s : Fifo) {t : Fifo} → Started head s t → line t ≡ line s
unfolding enter_recovery set_phase begin mark_seen
Started-line head s (joined plan id tok) = refl
Started-line head s (sampling plan tok) = refl
Started-line head s (probing plan tok id) = silent s.out _ s.queued refl

evict-line :
    (env : Env) (head : HandlerReq) (rest : List HandlerReq) (victims : List ℕ) (s : Fifo)
    {r : Fifo × Bool}
    → EvictCase env head rest victims s r
    → s.queued ≡ head ∷ rest
    → line r.0 ≡ line s
unfolding fail_drain refuse begin_unload set_phase open_gates arm_drain
evict-line env head rest victims s expired q = moved s.out _ head rest refl ∙ ap (◌++◌ _) (sym q)
evict-line env head rest victims s (draining _) q =
    if-cases (λ (es : List Effect). answered es ++ s.queued ≡ line s) s.drain_armed (λ _. refl)
      (λ _. silent s.out _ s.queued refl)
evict-line env head rest victims s barred q = moved s.out _ head rest refl ∙ ap (◌++◌ _) (sym q)
evict-line env head rest victims s (unloads _ _) q = silent s.out _ s.queued refl

head-line :
    (env : Env) (head : HandlerReq) (rest : List HandlerReq) (s : Fifo) {r : Fifo × Bool}
    → HeadCase env head rest s r
    → s.queued ≡ head ∷ rest
    → line r.0 ≡ line s
unfolding refuse begin_load close_gates set_phase
head-line env head rest s (full _) q = refl
head-line env head rest s (refusing err) q = moved s.out _ head rest refl ∙ ap (◌++◌ _) (sym q)
head-line env head rest s (granting _ _) q = grant_head-line env head rest s ∙ ap (◌++◌ _) (sym q)
head-line env head rest s (loads _) q = silent s.out _ s.queued refl
head-line env head rest s (evicting v vs _ c) q =
    evict-line env head rest _ (close_gates env (v ∷ vs) s) c q

pass-line : (env : Env) (s : Fifo) (r : Fifo × Bool) → PassCase env s r → line r.0 ≡ line s
unfolding reopen_unused_gates
pass-line env s r (in_recovery _) = refl
pass-line env s r (starting head rest _ _ st) = Started-line head s st
pass-line env s r (resting _ _) = refl
pass-line env s r (acting head rest _ q c) = head-line env head rest (reopen_unused_gates env s) c q

Change-line : {s t : Fifo} → Change s t → line t ≡ line s
unfolding apply_backend begin mark_seen set_phase leave_recovery refuse
Change-line (noted _ _ _ _ _ _ _ _ _ _ _) = refl
Change-line (backend_seen model active proof) = refl
Change-line {s} (probed id) = silent s.out _ s.queued refl
Change-line (sampled p) = refl
Change-line (left p) = refl
Change-line {s} (failed err head rest q) = moved s.out _ head rest refl ∙ ap (◌++◌ _) (sym q)

fail_first-line :
    (err : Fault) (q : List HandlerReq) (s : Fifo)
    → s.queued ≡ q
    → line (fail_first err q s) ≡ line s
unfolding fail_first
fail_first-line err [] s e = refl
fail_first-line err (head ∷ rest) s e = moved s.out _ head rest refl ∙ ap (◌++◌ _) (sym e)

fail_target-line :
    (err : Fault) (target : ℕ) (q : List HandlerReq) (s : Fifo)
    → s.queued ≡ q
    → line (fail_target err target q s) ≡ line s
unfolding fail_target
fail_target-line err target [] s e = refl
fail_target-line err target (head ∷ rest) s e =
    if-cases (λ (t : Fifo). line t ≡ line s) (head.model == target)
      (λ _. moved s.out _ head rest refl ∙ ap (◌++◌ _) (sym e)) (λ _. refl)

after_load-line :
    (err : Option Fault) (target : ℕ) (s : Fifo) → line (after_load err target s) ≡ line s
unfolding after_load
after_load-line none target s = refl
after_load-line (some err) target s = fail_target-line err target s.queued s refl

unload_failed-line : (err : Fault) (s : Fifo) → line (unload_failed err s) ≡ line s
unfolding unload_failed
unload_failed-line err s = fail_first-line _ s.queued _ refl

proxy-line : (model : ℕ) (s : Fifo) → line (on_proxy_start model s) ≡ line s
unfolding on_proxy_start
proxy-line model s =
    if-cases (λ (t : Fifo). line t ≡ line s) (ltb 0 (s.pending model))
      (λ _. silent s.out _ s.queued refl) (λ _. silent s.out _ s.queued refl)

give_back-line : (model : ℕ) (s : Fifo) → line (give_back model s) ≡ line s
unfolding give_back
give_back-line model s =
    if-cases (λ (t : Fifo). line t ≡ line s) (ltb 0 (s.pending model)) (λ _. refl) (λ _. refl)

end_serve-line : (model : ℕ) (s : Fifo) → line (end_serve model s) ≡ line s
unfolding end_serve
end_serve-line model s =
    if-cases (λ (t : Fifo). line t ≡ line s) (ltb 0 (s.http_in model)) (λ _. refl) (λ _. refl)

answered-refusals : (err : Fault) (q : List HandlerReq) → answered (refusals err q) ≡ q
answered-refusals err [] = refl
answered-refusals err (x ∷ xs) = ap (◌∷◌ x) (answered-refusals err xs)

shutdown-line : (err : Fault) (s : Fifo) → line (on_shutdown err s) ≡ line s
unfolding on_shutdown
shutdown-line err s =
    rw (append-nil, answered-append s.out (refusals err s.queued), answered-refusals err s.queued)

work-line : (env : Env) (s t : Fifo) → Work env s t → line t ≡ line s
unfolding unload_succeeded open_gates reopen_unused_gates
work-line env s t (passes _ b c) = pass-line env s (t, b) c
work-line env s t (changes c) = Change-line c
work-line env s t (proxies model) = proxy-line model s
work-line env s t (gives_back model) = give_back-line model s
work-line env s t (ends_serve model) = end_serve-line model s
work-line env s t (backend_ends _) = refl
work-line env s t (unload_fails err _) = unload_failed-line err s
work-line env s t (unloaded _) = refl
work-line env s t (load_ends err _) = after_load-line err _ _
work-line env s t reminded = refl
work-line env s t (shuts err) = shutdown-line err s

Works-line : (env : Env) {s t : Fifo} → Works env s t → line t ≡ line s
Works-line env start = refl
Works-line env (next ws w) = work-line env _ _ w ∙ Works-line env ws

-- tryDispatch answers a stretch from the front of the queue, in its order, and keeps the rest.
pub line-try_dispatch : (env : Env) (s : Fifo) → line (try_dispatch env s) ≡ line s
line-try_dispatch env s =
    try_dispatch-keeps (λ t. line t ≡ line s) env (λ t r c e. pass-line env t r c ∙ e) s refl

-- An event other than a new request, a cancel or a queue timeout answers a stretch from the front
-- of the queue, in its order, and keeps the rest.
pub line-step :
    (env : Env) (e : Event) (s : Fifo) → is_queue_event e ≡ false → line (step env e s) ≡ line s
line-step env e s h = Works-line env (step-Works env e s h)
