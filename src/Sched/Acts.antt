-- ===== src/Sched/Acts.antt =====
-- Every event, as a sequence of elementary acts: what the event itself does, changes of the
-- recovery, and passes of tryDispatch. An invariant of the acts is an invariant of the scheduler.
use infer_swap.Common.{
  ℕ, ◌<◌, Bool, true, false, not, ◌&&◌, ◌≡◌, refl, Option, none, some, List, [], ◌∷◌, ◌++◌, ◌==◌,
  arith, if-cases, leb, length,
}
use infer_swap.Sched.Types.{
  Fifo, Env, HandlerReq, Fault, Effect, grant_error, admit_reply, proxy_reply,
}
use infer_swap.Sched.Dispatch.{try_dispatch}
use infer_swap.Sched.Handlers.{
  new, admit, reject_admit, enqueue, accept_request, on_request, with_id, count_id, take_id,
  is_known, cancel_taken, on_cancel, time_out_taken, on_queue_timeout,
}
use infer_swap.Sched.Step.{Event, step, Reachable, initial, after}
use infer_swap.Sched.Changes.{Changes, here, more, drop_owner-Changes}
use infer_swap.Sched.Works.{Work, changes, Works, dispatched, step-Works}

-- A message to a caller that starts nothing.
abbrev pub is_reply : Effect → Bool
is_reply (grant_error req err) = true
is_reply (admit_reply req err) = true
is_reply (proxy_reply model held) = true
is_reply _ = false

pub data Act (env : Env) (s : Fifo) : Fifo → Type 0 where
  works : {t : Fifo} → Work env s t → Act env s t
  counted : (id : ℕ) → Act env s (record s { next_id = id })
  replied : (e : Effect) → is_reply e ≡ true → Act env s (record s { out = s.out ++ e ∷ [] })
  queues :
      (req : HandlerReq)
      → length s.queued < s.max_q
      → Act env s (record s { queued = s.queued ++ req ∷ [] })
  withdraws :
      (id : ℕ) (q : HandlerReq) (rest : List HandlerReq)
      → take_id id s.queued ≡ some (q, rest)
      → Act env s (record s { queued = rest })

pub data Acts (env : Env) (s : Fifo) : Fifo → Type 0 where
  start : Acts env s s
  next : {t u : Fifo} → Acts env s t → Act env t u → Acts env s u

module _ (env : Env) where
  of_Works : {s t u : Fifo} → Acts env s t → Works env t u → Acts env s u
  of_Works acts Works.start = acts
  of_Works acts (Works.next ws w) = next (of_Works acts ws) (works w)

  acts_of_Changes : {s t u : Fifo} → Acts env s t → Changes t u → Acts env s u
  acts_of_Changes acts here = acts
  acts_of_Changes acts (more cs c) = next (acts_of_Changes acts cs) (works (changes c))

  acts_dispatched : {s t : Fifo} → Acts env s t → Acts env s (try_dispatch env t)
  acts_dispatched acts = of_Works acts (dispatched env Works.start)

  join : {s t u : Fifo} → Acts env s t → Acts env t u → Acts env s u
  join acts start = acts
  join acts (next bcts b) = next (join acts bcts) b

  -- The admission of a request, up to its place in the queue.
  enqueued :
      (req : HandlerReq) (s : Fifo)
      → length s.queued < s.max_q
      → Acts env s (enqueue env req (admit env req none s))
  unfolding enqueue admit
  enqueued req s room =
      if-cases (λ (r : Fifo × Bool). Acts env s (enqueue env req r)) (not req.has_admit)
        (λ _. acts_dispatched (next start (queues req room)))
        λ _.
          if-cases (λ (r : Fifo × Bool). Acts env s (enqueue env req r)) (env.ctx_done req)
            (λ _. start)
            λ _.
              if-cases (λ (r : Fifo × Bool). Acts env s (enqueue env req r)) (env.admit_takes req)
                (λ _. acts_dispatched (next (next start (replied _ refl)) (queues req room)))
                (λ _. start)

  rejected : (req : HandlerReq) (err : Fault) (s : Fifo) → Acts env s (reject_admit env req err s)
  unfolding reject_admit
  rejected req err s =
      if-cases (Acts env s) (req.has_admit && env.admit_takes req)
        (λ _. next start (replied _ refl)) (λ _. next start (replied _ refl))

  accept_request-Acts : (req : HandlerReq) (s : Fifo) → Acts env s (accept_request env req s)
  unfolding accept_request
  accept_request-Acts req s =
      if-cases (Acts env s) (not (is_known (env.model_state req.model))) (λ _. rejected req _ s)
        λ _.
          if-cases (Acts env s) (leb s.max_q (length s.queued)) (λ _. rejected req _ s)
            (λ h. enqueued req s (ground arith))

  on_request-Acts : (req : HandlerReq) (s : Fifo) → Acts env s (on_request env req s)
  unfolding on_request count_id
  on_request-Acts req s =
      if-cases (λ (t : Fifo). Acts env s (accept_request env (with_id req s) t)) (req.id == 0)
        (λ _. counts (next start (counted _))) (λ _. accept_request-Acts _ s)
    where
      counts : {t : Fifo} → Acts env s t → Acts env s (accept_request env (with_id req s) t)
      counts {t} acts = join acts (accept_request-Acts _ t)

  cancel_taken-Acts :
      (id : ℕ) (s : Fifo) (o : Option (HandlerReq × List HandlerReq))
      → take_id id s.queued ≡ o
      → Acts env s (cancel_taken env id o s)
  unfolding cancel_taken
  cancel_taken-Acts id s none e = start
  cancel_taken-Acts id s (some (q, rest)) e =
      acts_dispatched
        (acts_of_Changes (next start (withdraws id q rest e)) (drop_owner-Changes id _))

  time_out_taken-Acts :
      (id : ℕ) (s : Fifo) (o : Option (HandlerReq × List HandlerReq))
      → take_id id s.queued ≡ o
      → Acts env s (time_out_taken env id o s)
  unfolding time_out_taken
  time_out_taken-Acts id s none e = start
  time_out_taken-Acts id s (some (q, rest)) e = acts_dispatched (
      next (acts_of_Changes (next start (withdraws id q rest e)) (drop_owner-Changes id _))
        (replied _ refl))

  -- Every event is a sequence of acts.
  pub step-Acts : (e : Event) (s : Fifo) → Acts env s (step env e s)
  unfolding step on_cancel on_queue_timeout
  step-Acts (Event.request req) s = on_request-Acts req s
  step-Acts (Event.cancel req) s = cancel_taken-Acts _ s _ refl
  step-Acts (Event.queue_timeout req) s = time_out_taken-Acts _ s _ refl
  step-Acts e s = of_Works start (step-Works env e s refl)

-- What holds at first and is kept by every act holds in every reachable state.
module _ {ℓ} (P : Fifo → Type ℓ) (keeps : (env : Env) (s t : Fifo) → Act env s t → P s → P t) where
  Acts-keeps : (env : Env) {s t : Fifo} → Acts env s t → P s → P t
  Acts-keeps env start p = p
  Acts-keeps env (next {t = t} {u = u} acts act) p = keeps env t u act (Acts-keeps env acts p)

  pub step-keeps : (env : Env) (e : Event) (s : Fifo) → P s → P (step env e s)
  step-keeps env e s p = Acts-keeps env (step-Acts env e s) p

  pub Reachable-keeps :
      ((limits : ℕ → ℕ) (queue_size drain_time : ℕ) → P (new limits queue_size drain_time))
      → {s : Fifo} → Reachable s
      → P s
  Reachable-keeps base (initial l q d) = base l q d
  Reachable-keeps base (after {s} env e r) = step-keeps env e s (Reachable-keeps base r)
