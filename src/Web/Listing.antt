-- ===== src/Web/Listing.antt =====
-- internal/server/server.go and internal/router/diagnostics.go: handleModels and snapshotDiagnostics. A
-- JSON field that may be null or missing is an Option.
use infer_swap.Common.{
  ℕ, Bool, true, false, not, Option, none, some, List, [], ◌∷◌, String, length, lookup, keys,
  sort_ids, if◌then◌else◌,
}
use infer_swap.Wire.{State, WireState, Residency, Status, LastError}
use infer_swap.Router.State.{World, Router}
use infer_swap.Router.Budget.{gpu_fresh}

pub record ModelDiagnostics : Type 0 where
  pub reserved_bytes : ℕ
  pub state : State
  pub reason : String
  pub remote : Option Status

pub record GpuDiagnostics : Type 0 where
  pub observed_at : ℕ
  pub fresh : Bool
  pub total : ℕ
  pub free : ℕ

pub record Diagnostics : Type 0 where
  pub queue_depth : ℕ
  pub gpu : GpuDiagnostics
  pub models : List (ℕ × ModelDiagnostics)

abbrev or_zero : Option ℕ → ℕ
or_zero none = 0
or_zero (some n) = n

-- The reasons of the clients are an argument; a runtime that is no client has the empty one.
abbrev model_diagnostics : Router → (ℕ → String) → List (ℕ × State) → List (ℕ × ModelDiagnostics)
model_diagnostics r reasons [] = []
model_diagnostics r reasons ((id, st) ∷ sts) =
    (
      id,
      record {
        reserved_bytes = or_zero (r.reserved id);
        state = st;
        reason = reasons id;
        remote = r.last_status id;
      },
    )
    ∷ model_diagnostics r reasons sts

unfoldable pub snapshot_diagnostics : World → Router → (ℕ → String) → Diagnostics
snapshot_diagnostics w r reasons = record {
  queue_depth = length r.schedule.queued;
  gpu = record {
    observed_at = r.snap.observed_at;
    fresh = gpu_fresh w r;
    total = r.snap.total;
    free = r.snap.free;
  };
  models = model_diagnostics r reasons w.states;
}

-- A model of the configuration, as far as it is listed.
pub record Named : Type 0 where
  pub name : String
  pub unlisted : Bool

-- A runtime of the server: its state, and the status that it answers now, if it does.
pub record Live : Type 0 where
  pub state : State
  pub status : Option Status

pub record Entry : Type 0 where
  pub id : ℕ
  pub name : String
  pub state : State
  pub ready : Option Bool
  pub residency : Option Residency
  pub remote_state : Option WireState
  pub reason : String
  pub reserved_bytes : ℕ
  pub last_error : Option LastError

abbrev no_diagnostics : ModelDiagnostics
no_diagnostics = record { reserved_bytes = 0; state = State.unknown; reason = ""; remote = none }

abbrev pub diagnostics_of : ℕ → Diagnostics → ModelDiagnostics
diagnostics_of id d = elim (lookup id d.models) [ none ↦ no_diagnostics | some m ↦ m ]

abbrev last_error_of : Option Status → Option LastError
last_error_of none = none
last_error_of (some st) = st.last_error

-- The entry of a model without a runtime, or of one whose state is not known.
abbrev pub blank_entry : ℕ → Named → ModelDiagnostics → Entry
blank_entry id n md = record {
  id = id;
  name = n.name;
  state = State.unknown;
  ready = none;
  residency = none;
  remote_state = none;
  reason = md.reason;
  reserved_bytes = md.reserved_bytes;
  last_error = last_error_of md.remote;
}

abbrev pub with_remote : Option Status → Entry → Entry
with_remote none e = e
with_remote (some st) e = record e {
  remote_state = some st.state;
  residency = some st.residency;
  last_error = st.last_error;
}

-- The status of now, or else the one that the router has seen last.
abbrev pub newest : Option Status → Option Status → Option Status
newest none seen = seen
newest (some st) seen = some st

abbrev pub is_state_ready : State → Bool
is_state_ready State.ready = true
is_state_ready _ = false

abbrev pub live_entry : State → Option Status → ModelDiagnostics → Entry → Entry
live_entry State.unknown now md e = e
live_entry st now md e =
    with_remote (newest now md.remote) (record e { state = st; ready = some (is_state_ready st) })

abbrev pub entry_of : ModelDiagnostics → Option Live → Entry → Entry
entry_of md none e = e
entry_of md (some l) e = live_entry l.state l.status md e

abbrev pub listed : ℕ → Option Named → Diagnostics → Option Live → List Entry → List Entry
listed id none d l rest = rest
listed id (some n) d l rest =
    if n.unlisted
    then rest
    else entry_of (diagnostics_of id d) l (blank_entry id n (diagnostics_of id d)) ∷ rest

unfoldable pub entries : List (ℕ × Named) → Diagnostics → (ℕ → Option Live) → List ℕ → List Entry
entries models d live [] = []
entries models d live (id ∷ ids) =
    listed id (lookup id models) d (live id) (entries models d live ids)

-- handleModels, up to the JSON that it writes.
unfoldable pub handle_models : List (ℕ × Named) → Diagnostics → (ℕ → Option Live) → List Entry
unfolding entries
handle_models models d live = entries models d live (sort_ids (keys models))

abbrev pub is_listed : Option Named → Bool
is_listed none = false
is_listed (some n) = not n.unlisted
