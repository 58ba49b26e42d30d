-- ===== src/Sched/Inv/Queue.antt =====
-- The queue: a request enters at its end if there is room, and a cancel or a timeout takes one out
-- of its middle and leaves the others in order.
use infer_swap.Common.{
  ℕ, ◌+◌, ◌%◌, ◌^◌, subst, ap, Bool, true, false, not, ◌&&◌, ◌||◌, ◌≡◌, refl, sym, ◌∙◌, none, some,
  List, [], ◌∷◌, ◌++◌, append_assoc, arith, if-cases, ◌==◌, ltb, leb, length, ◌⊎◌, if◌then◌else◌,
}
use infer_swap.Sched.Types
use infer_swap.Sched.Types.{
  Fifo, Env, HandlerReq, sched, queue_timeout, grant_error, Error, queue_full, model_not_found,
  admit_reply,
}
use infer_swap.Sched.Probe.{drop_owner, leave_recovery}
use infer_swap.Sched.Handlers.{
  admit, reject_admit, enqueue, accept_request, on_request, with_id, count_id, take_id, is_known,
  cancel_taken, on_cancel, time_out_taken, on_queue_timeout,
}
use infer_swap.Sched.Inv.Numbers.{next_id-on_request}
use infer_swap.Sched.Inv.Line.{answered, line, moved, silent, line-try_dispatch}

-- Some request of a list has the id.
abbrev pub has_id : ℕ → List HandlerReq → Bool
has_id id [] = false
has_id id (q ∷ qs) = q.id == id || has_id id qs

take_id-middle :
    (id : ℕ) (pre post : List HandlerReq) (q : HandlerReq)
    → has_id id pre ≡ false
    → q.id ≡ id
    → take_id id (pre ++ q ∷ post) ≡ some (q, pre ++ post)
unfolding take_id
take_id-middle id [] post q h e = ground arith
take_id-middle id (p ∷ pre) post q h e = ground (arith, take_id-middle id pre post q)

take_id-missing : (id : ℕ) (l : List HandlerReq) → has_id id l ≡ false → take_id id l ≡ none
unfolding take_id
take_id-missing id [] h = refl
take_id-missing id (p ∷ l) h = ground (arith, take_id-missing id l)

drop_owner-moved :
    (id : ℕ) (s : Fifo) → ((drop_owner id s).out ≡ s.out) × ((drop_owner id s).queued ≡ s.queued)
unfolding drop_owner leave_recovery
drop_owner-moved id s = ground arith

module _ (env : Env) (req : HandlerReq) (s : Fifo) where
  same : (t : Fifo) → line (drop_owner req.id t) ≡ line t
  same t = rw (drop_owner-moved req.id t).0 (rw (drop_owner-moved req.id t).1)

  timed_out :
      (q : HandlerReq) (t : Fifo)
      → let u = drop_owner req.id t in
        answered (u.out ++ grant_error q (sched queue_timeout) ∷ []) ++ u.queued
        ≡ answered t.out ++ q ∷ t.queued
  timed_out q t =
      moved (drop_owner req.id t).out _ q _ refl
      ∙ rw (drop_owner-moved req.id t).0 (rw (drop_owner-moved req.id t).1)

  -- A cancel with the id of a queued request takes the first such request out of the queue; the
  -- others are answered or queue on in their order.
  pub line-on_cancel :
      (pre post : List HandlerReq) (q : HandlerReq)
      → s.queued ≡ pre ++ q ∷ post
      → has_id req.id pre ≡ false
      → q.id ≡ req.id
      → line (on_cancel env req s) ≡ answered s.out ++ (pre ++ post)
  unfolding on_cancel cancel_taken
  line-on_cancel pre post q e h k =
      rw (e, take_id-middle req.id pre post q h k) (line-try_dispatch env _ ∙ same _)

  -- A queue timeout with the id of a queued request answers the first such request, before the ones
  -- in front of it.
  pub line-on_queue_timeout :
      (pre post : List HandlerReq) (q : HandlerReq)
      → s.queued ≡ pre ++ q ∷ post
      → has_id req.id pre ≡ false
      → q.id ≡ req.id
      → line (on_queue_timeout env req s) ≡ answered s.out ++ q ∷ (pre ++ post)
  unfolding on_queue_timeout time_out_taken
  line-on_queue_timeout pre post q e h k =
      rw (e, take_id-middle req.id pre post q h k) (line-try_dispatch env _ ∙ timed_out q _)

  -- A cancel or a timeout for a request that is not in the queue does nothing.
  pub missing_id :
      has_id req.id s.queued ≡ false → (on_cancel env req s ≡ s) × (on_queue_timeout env req s ≡ s)
  unfolding on_cancel cancel_taken on_queue_timeout time_out_taken
  missing_id h = (rw (take_id-missing req.id s.queued h), rw (take_id-missing req.id s.queued h))

-- The caller takes the admission: it has no Admit channel, or is there and reads it.
abbrev pub takes_admission : Env → HandlerReq → Bool
takes_admission env req = not req.has_admit || (not (env.ctx_done req) && env.admit_takes req)

-- The conditions under which OnRequest queues a request.
abbrev pub is_admitted : Env → HandlerReq → Fifo → Bool
is_admitted env req s =
    is_known (env.model_state req.model) && ltb (length s.queued) s.max_q && takes_admission env req

enqueue-line :
    (env : Env) (req : HandlerReq) (s : Fifo)
    → takes_admission env req ≡ true
    → line (enqueue env req (admit env req none s)) ≡ line s ++ req ∷ []
unfolding enqueue admit
enqueue-line env req s h =
    if-cases (λ (r : Fifo × Bool). line (enqueue env req r) ≡ line s ++ req ∷ [])
      (not req.has_admit) (λ _. line-try_dispatch env _ ∙ joins s.out)
      λ a.
        if-cases (λ (r : Fifo × Bool). line (enqueue env req r) ≡ line s ++ req ∷ [])
          (env.ctx_done req) (λ b. cc)
          λ b.
            if-cases (λ (r : Fifo × Bool). line (enqueue env req r) ≡ line s ++ req ∷ [])
              (env.admit_takes req)
              (λ _. line-try_dispatch env _ ∙ silent s.out _ _ refl ∙ joins s.out)
              (λ c. ground arith)
  where
    joins :
        (out : List Types.Effect)
        → answered out ++ (s.queued ++ req ∷ []) ≡ (answered out ++ s.queued) ++ req ∷ []
    joins out = sym (append_assoc (answered out) s.queued (req ∷ []))

module _ (env : Env) (req : HandlerReq) (s : Fifo) where
  accept_request-line :
      is_admitted env req s ≡ true → line (accept_request env req s) ≡ line s ++ req ∷ []
  unfolding accept_request
  accept_request-line h =
      if-cases (λ (t : Fifo). line t ≡ line s ++ req ∷ [])
        (not (is_known (env.model_state req.model))) (λ a. ground arith)
        λ a.
          if-cases (λ (t : Fifo). line t ≡ line s ++ req ∷ []) (leb s.max_q (length s.queued))
            (λ b. ground arith) (λ b. enqueue-line env req s (ground arith))

  -- The error that a request gets which may not queue.
  abbrev pub refusal : Error
  refusal = if is_known (env.model_state req.model) then queue_full else model_not_found

  -- A caller that has gone gets nothing.
  abbrev pub IsRefused : Fifo → Type 0
  IsRefused t =
      (t.queued ≡ s.queued)
      × ((t.out ≡ s.out ++ admit_reply req (some (sched refusal)) ∷ [])
          ⊎ (t.out ≡ s.out ++ grant_error req (sched refusal) ∷ [])
          ⊎ ((takes_admission env req ≡ false) × (t.out ≡ s.out)))

  accept_request-IsRefused : is_admitted env req s ≡ false → IsRefused (accept_request env req s)
  unfolding accept_request reject_admit enqueue admit
  accept_request-IsRefused h = ground arith

-- A request as it enters: one that comes with the id 0 is numbered, by one more than the last
-- number that was given, in 64 bits.
abbrev pub numbered : HandlerReq → Fifo → HandlerReq
numbered req s = record req { id = if req.id == 0 then (s.next_id + 1) % 2 ^ 64 else req.id }

with_id-numbered : (req : HandlerReq) (s : Fifo) → with_id req s ≡ numbered req s
unfolding with_id
with_id-numbered req s = ground arith

on_request-line :
    (env : Env) (req : HandlerReq) (s : Fifo)
    → is_admitted env (with_id req s) s ≡ true
    → line (on_request env req s) ≡ line s ++ with_id req s ∷ []
unfolding on_request count_id
on_request-line env req s h =
    if-cases
      (λ (t : Fifo). line (accept_request env (with_id req s) t) ≡ line s ++ with_id req s ∷ [])
      (req.id == 0) (λ _. accept_request-line env (with_id req s) _ h)
      (λ _. accept_request-line env (with_id req s) s h)

-- A request for a known model that finds room in the queue and whose caller takes the admission
-- joins the end of the line. If it came with the id 0, its id is one more than the last number that
-- was given, in 64 bits, and that number is then the last one given; otherwise the request keeps its
-- id, and the last number stays.
pub line-on_request :
    (env : Env) (req : HandlerReq) (s : Fifo)
    → is_admitted env (numbered req s) s ≡ true
    → let t = on_request env req s in
      (line t ≡ line s ++ numbered req s ∷ [])
      × (t.next_id ≡ (if req.id == 0 then (s.next_id + 1) % 2 ^ 64 else s.next_id))
line-on_request env req s h =
    let e = with_id-numbered req s in
    (
      subst (λ q. line (on_request env req s) ≡ line s ++ q ∷ []) e
          (on_request-line env req s (ap (λ q. is_admitted env q s) e ∙ h)),
      next_id-on_request env req s,
    )

-- A request for an unknown model, for a full queue, or whose caller does not take the admission
-- leaves the queue as it is. It gets one error, which tells the first two apart, on its Admit
-- channel or as a response; a caller that does not take the admission may get none.
pub on_request-IsRefused :
    (env : Env) (req : HandlerReq) (s : Fifo)
    → is_admitted env (with_id req s) s ≡ false
    → IsRefused env (with_id req s) s (on_request env req s)
unfolding on_request count_id
on_request-IsRefused env req s h =
    if-cases (λ (t : Fifo). IsRefused env (with_id req s) s (accept_request env (with_id req s) t))
      (req.id == 0) (λ _. accept_request-IsRefused env (with_id req s) _ h)
      (λ _. accept_request-IsRefused env (with_id req s) s h)
