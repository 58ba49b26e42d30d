-- ===== src/Router/Messages.antt =====
-- internal/router/base.go and recover.go: the goroutines that ask once and send one message to the loop:
-- pollGPU, refreshStatus, StartLoad, BeginProbe, Remind and watchQueueTimeout, and Reconcile.
use infer_swap.Common.{
  ℕ, ◌-◌, Bool, not, ◌||◌, Option, none, some, List, [], ◌∷◌, ◌==◌, if◌then◌else◌, Result, ok, err,
}
use infer_swap.Wire.{Status, WireState, Residency, RecoveryClass, classify_recovery}
use infer_swap.Resource.Admit.{Snapshot}
use infer_swap.Config.Checks.{second}
use infer_swap.Client.Calls.{GoError, Exchange, fetch_status, classify_status_err}
use infer_swap.Sched.Types.{HandlerReq, StatusEvent, Fault, foreign}
use infer_swap.Router.Ledger.{RecoverEvent}
use infer_swap.Router.Loop.{no_snapshot}
use infer_swap.Router.Step.{Event}
use infer_swap.Router.Unload.{positive_or}
use infer_swap.Router.Visit.{Pick}

-- A round of pollGPU: what it sends for what the observer says.
unfoldable pub poll_gpu : ℕ → Option Snapshot → Event
unfolding no_snapshot
poll_gpu device none = Event.observe no_snapshot
poll_gpu device (some snap) =
    if not snap.valid || not (snap.device_id == device)
    then Event.observe no_snapshot
    else Event.observe snap

abbrev pub no_status : Status
no_status = record {
  state = WireState.unloaded;
  residency = Residency.unknown;
  active_requests = 0;
  last_error = none;
}

abbrev status_error : Fault
status_error = foreign 8

abbrev status_event : ℕ → ℕ → Result GoError Status → StatusEvent
status_event id gen (ok st) = record { model_id = id; status = st; err = none; gen = gen }
status_event id gen (err e) = record {
  model_id = id;
  status = no_status;
  err = some status_error;
  gen = gen;
}

-- refreshStatus, of a model that may have no runtime.
unfoldable pub refresh_status : Bool → ℕ → ℕ → Exchange → Option Event
unfolding fetch_status
refresh_status known id gen x =
    if known then some (Event.status (status_event id gen (fetch_status x))) else none

abbrev pub status_timeout : ℕ → ℕ
status_timeout configured = positive_or configured 5_000_000_000

-- The timeout that StartLoad gives to EnsureReady, and its message.
unfoldable pub load_timeout : Option ℕ → ℕ
load_timeout none = second
load_timeout (some health) = positive_or health second

unfoldable pub start_load : ℕ → Option ℕ → (ℕ → Option Fault) → Event
unfolding load_timeout
start_load id health ensure_ready = Event.swap_end id (ensure_ready (load_timeout health))

abbrev pub class_of : Result GoError Status → RecoveryClass
class_of (ok st) = classify_recovery st
class_of (err e) = RecoveryClass.invalid

abbrev pub error_of : Result GoError Status → Option GoError
error_of (ok st) = none
error_of (err e) = some e

abbrev status_of : Result GoError Status → Status
status_of (ok st) = st
status_of (err e) = no_status

-- The status of an event with an error is the zero value, which nothing reads.
-- BeginProbe: what it has read of the client before, and the exchange that its status is.
unfoldable pub begin_probe : ℕ → ℕ → ℕ → ℕ → ℕ → Exchange → RecoverEvent
unfolding fetch_status classify_status_err
begin_probe token model gen proof now x =
    let r = fetch_status x in
    record {
      token = token;
      model = model;
      gen = gen;
      completed_at = now;
      status = status_of r;
      kind = classify_status_err (error_of r);
      class = class_of r;
      proof_gen = proof;
    }

-- The timer of a request, by the case that its select takes.
unfoldable pub watch_queue_timeout : HandlerReq → Pick → Option Event
watch_queue_timeout req Pick.taken = some (Event.queue_timeout req)
watch_queue_timeout req Pick.gone = none
watch_queue_timeout req Pick.shut = none

abbrev pub queue_timeout_of : ℕ → ℕ
queue_timeout_of configured = positive_or configured 180_000_000_000

-- Remind: how long it waits, and what it sends unless the router is shut down.
unfoldable pub remind : ℕ → ℕ → Bool → ℕ × Option Event
remind now at shut = (at - now, (if shut then none else some Event.remind))

-- Reconcile: the models in the order of the range, up to the first that fails.
unfoldable pub reconcile_all : List (ℕ × Option Fault) → Option (ℕ × Fault)
reconcile_all [] = none
reconcile_all ((id, none) ∷ rest) = reconcile_all rest
reconcile_all ((id, some e) ∷ rest) = some (id, e)
