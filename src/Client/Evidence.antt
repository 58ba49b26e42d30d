-- ===== src/Client/Evidence.antt =====
-- What a successful load or unload rests on, and what is asked before a call is posted.
use infer_swap.Common.{ℕ, ◌+◌, ◌⊎◌, ltb, Bool, true, false, ◌&&◌, ◌||◌, ◌≡◌, List, [], ◌∷◌, arith}
use infer_swap.Wire.{is_wire_ready, is_wire_unloaded}
use infer_swap.Client.Types.{Answer, status, error, done}
use infer_swap.Client.Ensure.{
  Poll, Remote, Call, post_load, wait_ready, ensure_from_answer, do_ensure, answer_down,
  is_idle_gone, is_wire_failed, is_wire_loading,
}
use infer_swap.Client.Release
use infer_swap.Client.Release.{is_released, do_stop}

abbrev pub shows_ready : Answer → Bool
shows_ready (status st) = is_wire_ready st.state
shows_ready (error e) = false

abbrev pub poll_shows_ready : List Poll → Bool
poll_shows_ready [] = false
poll_shows_ready (p ∷ ps) = shows_ready p.answer || poll_shows_ready ps

-- Some status that doEnsure has read says `ready`.
abbrev pub saw_ready : Remote → Bool
saw_ready r =
    shows_ready r.first
    || shows_ready r.second
    || shows_ready r.posted
    || shows_ready r.observed
    || poll_shows_ready r.polls

wait_ready-done :
    (deadline : ℕ) (ps : List Poll) → wait_ready deadline ps ≡ done → poll_shows_ready ps ≡ true
unfolding wait_ready
wait_ready-done deadline [] h = cc
wait_ready-done deadline (p ∷ ps) h = ground (arith, wait_ready-done deadline ps)

ensure_from_answer-ready :
    (r : Remote) (budget : ℕ) (a : Answer)
    → (ensure_from_answer r budget a).0 ≡ done
    → shows_ready a || shows_ready r.posted || shows_ready r.observed || poll_shows_ready r.polls
      ≡ true
unfolding ensure_from_answer
ensure_from_answer-ready r budget a h = ground (
  arith,
  wait_ready-done (r.now + budget) r.polls,
  wait_ready-done (r.posted_at + budget) r.polls,
)

-- A load succeeds only if one of the answers of the control endpoint says that the model is ready:
-- the first status, the one after the prepare command, the answer to the load, the status after the
-- load timed out, or a status of the waiting rounds.
pub do_ensure-ready : (r : Remote) (budget : ℕ) → (do_ensure r budget).0 ≡ done → saw_ready r ≡ true
unfolding do_ensure
do_ensure-ready r budget h =
    ground
      (arith, ensure_from_answer-ready r budget r.first, ensure_from_answer-ready r budget r.second)

abbrev pub posts_load : List Call → Bool
posts_load [] = false
posts_load (post_load ∷ cs) = true
posts_load (_ ∷ cs) = posts_load cs

-- A status that allows a load: unloaded, or failed, not resident and without requests.
abbrev pub allows_load : Answer → Bool
allows_load (status st) = is_wire_unloaded st.state || (is_wire_failed st.state && is_idle_gone st)
allows_load (error e) = false

ensure_from_answer-gated :
    (r : Remote) (budget : ℕ) (a : Answer)
    → posts_load (ensure_from_answer r budget a).1 ≡ true
    → (r.gate ≡ done) × (allows_load a ≡ true)
unfolding ensure_from_answer
ensure_from_answer-gated r budget a h = ground arith

-- The load is posted only after the load gate has admitted it, and only when the status that was
-- read last allows a load: the first, or with a dead endpoint the one after a prepare command that
-- succeeded.
pub post_load_gated :
    (r : Remote) (budget : ℕ)
    → posts_load (do_ensure r budget).1 ≡ true
    → (r.gate ≡ done)
      × ((allows_load r.first ≡ true)
          ⊎ ((answer_down r.first ≡ true) × (r.prepared ≡ done) × (allows_load r.second ≡ true)))
unfolding do_ensure
post_load_gated r budget h =
    ground
      (arith, ensure_from_answer-gated r budget r.first, ensure_from_answer-gated r budget r.second)

abbrev pub shows_released : Answer → Bool
shows_released (status st) = is_released st
shows_released (error e) = false

abbrev pub shows_busy : Answer → Bool
shows_busy (status st) = ltb 0 st.active_requests || is_wire_loading st.state
shows_busy (error e) = true

-- An unload succeeds only if a status says that the model is unloaded, not resident and without
-- requests: the first status, the answer to the unload, or the status after the unload timed out.
pub do_stop-released :
    (r : Release.Remote)
    → (do_stop r).0 ≡ done
    → shows_released r.first || shows_released r.posted || shows_released r.observed ≡ true
unfolding do_stop
do_stop-released r h = ground arith

-- An unload is posted only when the first status could be read, shows neither a request nor a load,
-- and does not show the model released already.
pub post_unload_idle :
    (r : Release.Remote)
    → (do_stop r).1 ≡ true
    → (shows_busy r.first ≡ false) × (shows_released r.first ≡ false)
unfolding do_stop
post_unload_idle r h = (ground arith, ground arith)
