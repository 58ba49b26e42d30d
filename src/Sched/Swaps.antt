-- ===== src/Sched/Swaps.antt =====
-- internal/router/scheduler/fifo.go: the handlers of a finished unload, a finished load, a reminder
-- and a shutdown.
use infer_swap.Common.{
  ℕ, Bool, true, false, not, ◌&&◌, ◌||◌, Option, none, some, List, [], ◌∷◌, ◌++◌, ◌==◌,
  if◌then◌else◌, contains,
}
use infer_swap.Sched.Types.{
  Fifo, Env, HandlerReq, Phase, idle, unloading, loading, Fault, sched, as_error, drain_timeout,
  unload_blocked, load_failed, Effect, grant_error,
}
use infer_swap.Sched.Gates.{open_gates, reopen_unused_gates}
use infer_swap.Sched.Dispatch.{try_dispatch}

abbrev pub is_unloading : Phase → Bool
is_unloading unloading = true
is_unloading _ = false

abbrev pub is_loading : Phase → Bool
is_loading loading = true
is_loading _ = false

-- `errors.Is(err, ErrDrainTimeout)`.
abbrev pub is_drain_timeout : Fault → Bool
is_drain_timeout (sched drain_timeout) = true
is_drain_timeout _ = false

-- The queue's head, if there is one, gets the error.
unfoldable pub fail_first : Fault → List HandlerReq → Fifo → Fifo
fail_first err [] s = s
fail_first err (head ∷ rest) s = record s {
  queued = rest;
  out = s.out ++ grant_error head err ∷ [];
}

unfoldable pub unload_failed : Fault → Fifo → Fifo
unfolding fail_first
unload_failed err s =
    let timed_out = is_drain_timeout err in
    fail_first (sched (if timed_out then drain_timeout else unload_blocked)) s.queued (record s {
      unload_fail = λ id. (not timed_out && contains id s.swap_evict) || s.unload_fail id;
      phase = idle;
      unload_began = false;
    })

unfoldable pub unload_succeeded : Env → Fifo → Fifo
unload_succeeded env s = reopen_unused_gates env (record (open_gates s.swap_evict s) {
  phase = idle;
  unload_began = false;
  swap_target = 0;
  swap_evict = [];
})

unfoldable pub after_unload : Env → Option Fault → Fifo → Fifo
after_unload env none s = unload_succeeded env s
after_unload env (some err) s = unload_failed err s

unfoldable pub on_unload_done : Env → Option Fault → Fifo → Fifo
unfolding after_unload
on_unload_done env err s =
    if is_unloading s.phase then try_dispatch env (after_unload env err s) else s

abbrev pub load_error : Fault → Fault
load_error err = elim (as_error err) [ none ↦ sched load_failed | some e ↦ sched e ]

-- The head gets the load's error only if it asked for that model.
unfoldable pub fail_target : Fault → ℕ → List HandlerReq → Fifo → Fifo
fail_target err target [] s = s
fail_target err target (head ∷ rest) s =
    if head.model == target
    then record s { queued = rest; out = s.out ++ grant_error head (load_error err) ∷ [] }
    else s

unfoldable pub after_load : Option Fault → ℕ → Fifo → Fifo
unfolding fail_target
after_load none target s = s
after_load (some err) target s = fail_target err target s.queued s

unfoldable pub on_swap_done : Env → ℕ → Option Fault → Fifo → Fifo
on_swap_done env model err s =
    if is_loading s.phase && model == s.swap_target
    then try_dispatch env (
        after_load err s.swap_target
          (record s { phase = idle; unload_began = false; swap_target = 0; swap_evict = [] }))
    else s

unfoldable pub on_remind : Env → Fifo → Fifo
on_remind env s = try_dispatch env (record s { drain_armed = false })

abbrev pub refusals : Fault → List HandlerReq → List Effect
refusals err [] = []
refusals err (q ∷ qs) = grant_error q err ∷ refusals err qs

unfoldable pub on_shutdown : Fault → Fifo → Fifo
on_shutdown err s = record s { out = s.out ++ refusals err s.queued; queued = [] }
