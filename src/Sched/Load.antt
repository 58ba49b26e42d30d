-- ===== src/Sched/Load.antt =====
-- internal/router/scheduler/fifo.go: what the scheduler counts for each model, and the questions
-- that it asks of those counts and of the planner.
use infer_swap.Common.{
  ℕ, ◌+◌, Bool, true, false, not, ◌&&◌, ◌||◌, List, [], ◌∷◌, ltb, ◌==◌, if◌then◌else◌,
}
use infer_swap.Wire.{State, is_running}
use infer_swap.Sched.Types.{
  Fifo, Env, Phase, idle, unloading, loading, recover, sample, Planner, no_planner, swapper,
  decider, Decision, evicts,
}

abbrev pub is_idle : Phase → Bool
is_idle idle = true
is_idle _ = false

abbrev pub is_swapping : Phase → Bool
is_swapping unloading = true
is_swapping loading = true
is_swapping _ = false

abbrev pub is_recovering : Phase → Bool
is_recovering recover = true
is_recovering sample = true
is_recovering _ = false

-- The work that a model still has: granted, in a proxy call, not yet proved done, seen at the
-- backend.
unfoldable pub work : Fifo → ℕ → ℕ
work s id = s.pending id + s.http_in id + s.unresolved id + s.backend id

unfoldable pub any_busy : Fifo → List ℕ → Bool
unfolding work
any_busy s [] = false
any_busy s (id ∷ ids) = ltb 0 (work s id) || any_busy s ids

unfoldable pub protected : Fifo → ℕ → Bool
unfolding work
protected s id = ltb 0 (work s id)

unfoldable pub slots : Fifo → ℕ → ℕ
slots s model = s.pending model + s.http_in model + s.unresolved model

-- A missing or zero entry stands for 1.
unfoldable pub limit : Fifo → ℕ → ℕ
limit s model = let n = s.limits model in if ltb 0 n then n else 1

unfoldable pub other_running : ℕ → List (ℕ × State) → List ℕ
other_running target [] = []
other_running target ((id, st) ∷ rest) =
    let ids = other_running target rest in
    if not (id == target) && is_running st then id ∷ ids else ids

unfoldable pub all_running : List (ℕ × State) → List ℕ
all_running [] = []
all_running ((id, st) ∷ rest) =
    let ids = all_running rest in if is_running st then id ∷ ids else ids

-- During a swap the model that it is for counts as running.
unfoldable pub running_ids : Env → Fifo → List ℕ
unfolding other_running all_running
running_ids env s =
    if not (s.swap_target == 0) && is_swapping s.phase
    then s.swap_target ∷ other_running s.swap_target env.running_models
    else all_running env.running_models

unfoldable pub eviction_for : Planner → ℕ → List ℕ → List ℕ
eviction_for no_planner target running = []
eviction_for (swapper f) target running = f target running
eviction_for (decider f d) target running = f target running

unfoldable pub decide : Planner → ℕ → List ℕ → Decision
decide no_planner target running = evicts []
decide (swapper f) target running = evicts (f target running)
decide (decider f d) target running = d target running

unfoldable pub any_unload_failed : Fifo → List ℕ → Bool
any_unload_failed s [] = false
any_unload_failed s (id ∷ ids) = s.unload_fail id || any_unload_failed s ids

blocked_by : Planner → Env → Fifo → ℕ → Bool
unfolding any_unload_failed
blocked_by no_planner env s model = s.unload_fail model
blocked_by p env s model = any_unload_failed s (eviction_for p model (running_ids env s))

unfoldable pub blocked : Env → Fifo → ℕ → Bool
unfolding blocked_by
blocked env s model = blocked_by env.planner env s model
