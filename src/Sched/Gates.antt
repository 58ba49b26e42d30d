-- ===== src/Sched/Gates.antt =====
-- internal/router/scheduler/fifo.go: the gates that close a victim while it drains, and the
-- deadline of the drain.
use infer_swap.Common.{
  ℕ, ◌+◌, Bool, true, false, not, ◌&&◌, ◌||◌, Option, none, some, List, [], ◌∷◌, ◌++◌, ltb, leb,
  ◌==◌, if◌then◌else◌, update, contains,
}
use infer_swap.Sched.Types.{Fifo, Env, HandlerReq, remind}
use infer_swap.Sched.Load.{is_idle, running_ids, eviction_for}

-- The first closing sets the time.
unfoldable pub close_gate : Env → ℕ → Fifo → Fifo
close_gate env id s = record s {
  gate_at = if s.gate_closed id then s.gate_at else update s.gate_at id (some env.now);
  gate_closed = update s.gate_closed id true;
}

-- A loop over `close_gate`, for all ids at once.
unfoldable pub close_gates : Env → List ℕ → Fifo → Fifo
close_gates env ids s = record s {
  gate_at = λ id. if contains id ids && not (s.gate_closed id) then some env.now else s.gate_at id;
  gate_closed = λ id. contains id ids || s.gate_closed id;
}

unfoldable pub open_gate : ℕ → Fifo → Fifo
open_gate id s = record s {
  gate_closed = update s.gate_closed id false;
  gate_at = update s.gate_at id none;
}

-- A loop over `open_gate`, for all ids at once.
unfoldable pub open_gates : List ℕ → Fifo → Fifo
open_gates ids s = record s {
  gate_closed = λ id. not (contains id ids) && s.gate_closed id;
  gate_at = λ id. if contains id ids then none else s.gate_at id;
}

-- The victims that the head of an idle queue needs closed.
needed_by_head : Env → Fifo → List HandlerReq → List ℕ
needed_by_head env s [] = []
needed_by_head env s (head ∷ rest) =
    if is_idle s.phase then eviction_for env.planner head.model (running_ids env s) else []

needed_by_unload : Fifo → List ℕ
needed_by_unload s = if not (is_idle s.phase) && s.unload_began then s.swap_evict else []

-- Ranging over the closed gates and opening some is done for all of them at once.
unfoldable pub reopen_unused_gates : Env → Fifo → Fifo
unfolding needed_by_head needed_by_unload
reopen_unused_gates env s =
    let need = needed_by_head env s s.queued ++ needed_by_unload s in
    let stays = λ (id : ℕ). contains id need || (s.unload_began && not (is_idle s.phase)) in
    record s {
      gate_closed = λ id. s.gate_closed id && stays id;
      gate_at = λ id. if s.gate_closed id && not (stays id) then none else s.gate_at id;
    }

unfoldable pub deadline_from : Fifo → ℕ → List ℕ → ℕ
deadline_from s deadline [] = deadline
deadline_from s deadline (id ∷ ids) = deadline_from s (earlier (s.gate_at id)) ids
  where
    earlier : Option ℕ → ℕ
    earlier none = deadline
    earlier (some at) = if ltb (at + s.drain) deadline then at + s.drain else deadline

unfoldable pub drain_deadline : Env → Fifo → List ℕ → ℕ
unfolding deadline_from
drain_deadline env s ids = deadline_from s (env.now + s.drain) ids

abbrev pub expired_at : ℕ → ℕ → Option ℕ → Bool
expired_at now drain none = false
expired_at now drain (some at) = leb (at + drain) now

unfoldable pub any_expired : ℕ → Fifo → List ℕ → Bool
any_expired now s [] = false
any_expired now s (id ∷ ids) = expired_at now s.drain (s.gate_at id) || any_expired now s ids

unfoldable pub drain_expired : Env → Fifo → List ℕ → Bool
unfolding any_expired
drain_expired env s ids = if s.drain == 0 then false else any_expired env.now s ids

-- One reminder is asked for at a time.
unfoldable pub arm_drain : Env → List ℕ → Fifo → Fifo
arm_drain env ids s = record s {
  drain_armed = true;
  out = if s.drain_armed then s.out else s.out ++ remind (drain_deadline env s ids) ∷ [];
}
