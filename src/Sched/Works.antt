-- ===== src/Sched/Works.antt =====
-- The events that leave the queue to the dispatch, as sequences of elementary works: what the
-- event itself does, changes of the recovery, and passes of tryDispatch.
use infer_swap.Common.{
  ℕ, Bool, true, false, ◌&&◌, ◌≡◌, Option, none, some, [], ◌==◌, arith, if-cases, update,
}
use infer_swap.Sched.Types.{Fifo, Env, StatusEvent, Phase, idle, unloading, loading, Fault}
use infer_swap.Sched.Dispatch.{try_dispatch}
use infer_swap.Sched.Handlers.{
  is_fault, on_proxy_start, give_back, on_cancel_granted, end_serve, on_serve_done, on_status,
  on_backend_done,
}
use infer_swap.Sched.Swaps.{
  is_unloading, is_loading, unload_failed, unload_succeeded, after_unload, on_unload_done,
  after_load, on_swap_done, on_remind, on_shutdown,
}
use infer_swap.Sched.Notes.{
  dispatch_if, note_step, note_probe, clear_marker, marker_cleared, sample_failed, is_sample,
}
use infer_swap.Sched.Step.{Event, step}
use infer_swap.Sched.Changes.{
  Change, backend_seen, Changes, here, more, fail_owner-Changes, forget_probe-Changes,
  note_step-Changes, clear_marker-Changes,
}
use infer_swap.Sched.Pass.Cases.{PassCase}
use infer_swap.Sched.Pass.Ends.{try_dispatch-keeps}

-- The events that put a request into the queue or take one out of its middle.
abbrev pub is_queue_event : Event → Bool
is_queue_event (Event.request req) = true
is_queue_event (Event.cancel req) = true
is_queue_event (Event.queue_timeout req) = true
is_queue_event _ = false

pub data Work (env : Env) (s : Fifo) : Fifo → Type 0 where
  passes : (t : Fifo) (b : Bool) → PassCase env s (t, b) → Work env s t
  changes : {t : Fifo} → Change s t → Work env s t
  proxies : (model : ℕ) → Work env s (on_proxy_start model s)
  gives_back : (model : ℕ) → Work env s (give_back model s)
  ends_serve : (model : ℕ) → Work env s (end_serve model s)
  backend_ends : (model : ℕ) → Work env s (record s { backend = update s.backend model 0 })
  unload_fails : (err : Fault) → s.phase ≡ unloading → Work env s (unload_failed err s)
  unloaded : s.phase ≡ unloading → Work env s (unload_succeeded env s)
  load_ends :
      (err : Option Fault)
      → s.phase ≡ loading
      → Work env s (
          after_load err s.swap_target
            (record s { phase = idle; unload_began = false; swap_target = 0; swap_evict = [] }))
  reminded : Work env s (record s { drain_armed = false })
  shuts : (err : Fault) → Work env s (on_shutdown err s)

pub data Works (env : Env) (s : Fifo) : Fifo → Type 0 where
  start : Works env s s
  next : {t u : Fifo} → Works env s t → Work env t u → Works env s u

unloading_eq : (p : Phase) → is_unloading p ≡ true → p ≡ unloading
unloading_eq p h = ground arith

loading_eq : (p : Phase) → is_loading p ≡ true → p ≡ loading
loading_eq p h = ground arith

module _ (env : Env) where
  pub of_Changes : {s t u : Fifo} → Works env s t → Changes t u → Works env s u
  of_Changes acts here = acts
  of_Changes acts (more cs c) = next (of_Changes acts cs) (changes c)

  pub dispatched : {s t : Fifo} → Works env s t → Works env s (try_dispatch env t)
  dispatched {s} {t} acts =
      try_dispatch-keeps (Works env s) env (λ u r c bs. next bs (passes r.0 r.1 c)) t acts

  dispatched_if : {s : Fifo} (r : Fifo × Bool) → Works env s r.0 → Works env s (dispatch_if env r)
  dispatched_if (t, true) acts = dispatched acts
  dispatched_if (t, false) acts = acts

  -- The admission of a request, up to its place in the queue.

  on_status-Works : (ev : StatusEvent) (s : Fifo) → Works env s (on_status env ev s)
  unfolding on_status
  on_status-Works ev s =
      if-cases (Works env s) (is_fault ev.err) (λ _. start)
        (λ _. dispatched (next start (changes (backend_seen _ _ _))))

  after_unload-Works :
      (err : Option Fault) (s : Fifo) → s.phase ≡ unloading → Works env s (after_unload env err s)
  unfolding after_unload
  after_unload-Works none s h = next start (unloaded h)
  after_unload-Works (some err) s h = next start (unload_fails err h)

  on_unload_done-Works : (err : Option Fault) (s : Fifo) → Works env s (on_unload_done env err s)
  unfolding on_unload_done
  on_unload_done-Works err s =
      if-cases (Works env s) (is_unloading s.phase)
        (λ h. dispatched (after_unload-Works err s (unloading_eq _ h))) (λ _. start)

  on_swap_done-Works :
      (model : ℕ) (err : Option Fault) (s : Fifo) → Works env s (on_swap_done env model err s)
  unfolding on_swap_done
  on_swap_done-Works model err s =
      if-cases (Works env s) (is_loading s.phase && model == s.swap_target)
        (λ h. dispatched (next start (load_ends err (loading_eq _ (ground arith))))) (λ _. start)

  sample_failed-Works : (s : Fifo) → Works env s (sample_failed env s)
  unfolding sample_failed
  sample_failed-Works s =
      if-cases (Works env s) (is_sample s.phase)
        (λ h. dispatched (of_Changes start (fail_owner-Changes _ s (ground arith)))) (λ _. start)

  -- Every event is a sequence of acts.

  -- A request comes, goes, or waits too long: the other events only do works.
  pub step-Works : (e : Event) (s : Fifo) → is_queue_event e ≡ false → Works env s (step env e s)
  unfolding step on_cancel_granted on_serve_done on_backend_done on_remind note_probe marker_cleared
  step-Works (Event.request req) s q = cc
  step-Works (Event.cancel req) s q = cc
  step-Works (Event.queue_timeout req) s q = cc
  step-Works (Event.proxy_start model) s q = next start (proxies model)
  step-Works (Event.cancel_granted model) s q = dispatched (next start (gives_back model))
  step-Works (Event.serve_done model) s q = dispatched (next start (ends_serve model))
  step-Works (Event.backend_done model) s q = dispatched (next start (backend_ends model))
  step-Works (Event.status ev) s q = on_status-Works ev s
  step-Works (Event.unload_done err) s q = on_unload_done-Works err s
  step-Works (Event.swap_done model err) s q = on_swap_done-Works model err s
  step-Works Event.remind s q = dispatched (next start reminded)
  step-Works (Event.shutdown err) s q = next start (shuts err)
  step-Works (Event.probe_dropped model) s q = of_Changes start (forget_probe-Changes model s)
  step-Works (Event.probe_done n) s q =
      dispatched_if (note_step env n s) (of_Changes start (note_step-Changes env n s))
  step-Works (Event.marker_clear id) s q =
      dispatched_if (clear_marker id s) (of_Changes start (clear_marker-Changes id s))
  step-Works Event.sample_fail s q = sample_failed-Works s
