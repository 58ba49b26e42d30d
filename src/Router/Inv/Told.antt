-- ===== src/Router/Inv/Told.antt =====
-- internal/router/base.go and recover.go: which events of the scheduler each case of the loop is to
-- hand on, and in which order.
use infer_swap.Common.{
  ℕ, Bool, false, ◌&&◌, Option, none, some, List, [], ◌∷◌, ◌++◌, ◌==◌, keys, if◌then◌else◌,
}
use infer_swap.Wire.{ApplyCode, applied}
use infer_swap.Resource.Admit.{Snapshot}
use infer_swap.Sched.Types.{Fifo, Fault, sched}
use infer_swap.Sched.Types
use infer_swap.Sched.Step
use infer_swap.Sched.Step.{Reachable, after, step}
use infer_swap.Sched.Notes.{recover_mode}
use infer_swap.Router.State.{World, Router, with_entry}
use infer_swap.Router.Ledger.{RecoverEvent}
use infer_swap.Router.Loop.{
  env_of, mark_all, Notice, Applied, acked, shut_first, is_applied, is_drop, calls_client,
}
use infer_swap.Router.Observation.{outdated}
use infer_swap.Router.Step.{Event}

-- The scheduler takes these events one after the other, each in the surroundings of a router that
-- holds it then.
pub data Heard (w : World) : List Step.Event → Fifo → Fifo → Type 0 where
  silence : {s : Fifo} → Heard w [] s s
  hears :
      (r : Router) (e : Step.Event) {es : List Step.Event} {u : Fifo}
      → Heard w es (step (env_of w r) e r.schedule) u
      → Heard w (e ∷ es) r.schedule u

pub Heard-append :
    (w : World) {es fs : List Step.Event} {s t u : Fifo}
    → Heard w es s t
    → Heard w fs t u
    → Heard w (es ++ fs) s u
Heard-append w silence k = k
Heard-append w (hears r e h) k = hears r e (Heard-append w h k)

pub Heard-Reachable :
    (w : World) {es : List Step.Event} {s t : Fifo} → Heard w es s t → Reachable s → Reachable t
Heard-Reachable w silence p = p
Heard-Reachable w (hears r e h) p = Heard-Reachable w h (after (env_of w r) e p)

abbrev pub markers_cleared : List ℕ → List Step.Event
markers_cleared [] = []
markers_cleared (id ∷ ids) = Step.Event.marker_clear id ∷ markers_cleared ids

-- A valid sample of the device clears the markers that are earlier, any other sample is a failure.
abbrev pub told_sample : Snapshot → ℕ → List (ℕ × ℕ) → List Step.Event
told_sample snap device marks =
    if snap.valid && snap.device_id == device
    then markers_cleared (keys (outdated snap.observed_at marks))
    else Step.Event.sample_fail ∷ []

abbrev pub told_shutdown : List Step.Event
told_shutdown = Step.Event.shutdown (sched Types.shutdown) ∷ []

-- A good unload marks its models before its sample is looked at; the end of any unload is told.
abbrev pub told_unload : Option Fault → Notice → Router → List Step.Event
told_unload none n r = told_sample n.sample r.device (mark_all n.ids n.at r.residual_after)
told_unload (some e) n r = []

-- The note on a probe: the mode in which the scheduler awaits it, the client's answer if it was asked,
-- and whether that applied the command.
abbrev pub told_note : RecoverEvent → Router → ApplyCode → Bool → List Step.Event
told_note ev r code done =
    Step.Event.probe_done (record {
      token = ev.token;
      model = ev.model;
      mode = recover_mode r.schedule ev.token;
      class = ev.class;
      kind = ev.kind;
      ack = code;
      active = ev.status.active_requests;
      proof_gen = ev.proof_gen;
      applied = done;
    })
    ∷ []

abbrev pub told_ack : RecoverEvent → Router → Applied → List Step.Event
told_ack ev r shut_first = told_shutdown
told_ack ev r (acked code shut) =
    if shut then told_shutdown else told_note ev r code (is_applied code)

abbrev pub told_recover : RecoverEvent → Applied → Router → List Step.Event
told_recover ev ans r =
    if is_drop (recover_mode r.schedule ev.token)
    then Step.Event.probe_dropped ev.model ∷ []
    else if calls_client ev
    then told_ack ev r ans
    else told_note ev r applied false

abbrev pub told : Event → Router → List Step.Event
told Event.shut r = []
told Event.shutdown r = told_shutdown
told (Event.request req) r = Step.Event.request req ∷ []
told (Event.cancel req) r = Step.Event.cancel req ∷ []
told (Event.queue_timeout req) r = Step.Event.queue_timeout req ∷ []
told (Event.unload_done n) r = told_unload n.err n r ++ Step.Event.unload_done n.err ∷ []
told (Event.swap_end model err) r = Step.Event.swap_done model err ∷ []
told (Event.serve_end model) r = Step.Event.serve_done model ∷ []
told (Event.proxy_start model) r = Step.Event.proxy_start model ∷ []
told (Event.cancel_granted model) r = Step.Event.cancel_granted model ∷ []
told (Event.backend_done model) r = Step.Event.backend_done model ∷ []
told (Event.status ev) r = Step.Event.status ev ∷ []
told (Event.admit model) r = []
told (Event.observe snap) r = told_sample snap r.device r.residual_after
told (Event.recover ev ans) r = told_recover ev ans r
told Event.remind r = Step.Event.remind ∷ []
told (Event.released id at snap) r = told_sample snap r.device (with_entry id at r.residual_after)
