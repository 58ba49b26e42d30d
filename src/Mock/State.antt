-- ===== src/Mock/State.antt =====
-- internal/runtime/mock/server.go and types.go: what the mock keeps, and its options, setters and forced
-- states. Gates only delay a step, and are left out; so are the listeners.
use infer_swap.Common.{ℕ, Bool, true, false, Option, none, some, String, if◌then◌else◌, ltb}
use infer_swap.Wire.{WireState, Residency, Status, LastError}

pub data StatusMode : Type 0 where
  normal malformed transport_error unreliable null_active negative_active : StatusMode
  ready_not_resident missing_active : StatusMode

pub data LoadFailMode : Type 0 where
  load_ok fail_not_resident fail_unknown : LoadFailMode

pub record Counts : Type 0 where
  pub prepare_starts : ℕ
  pub prepare_ends : ℕ
  pub load_starts : ℕ
  pub load_ends : ℕ
  pub unload_starts : ℕ
  pub unload_ends : ℕ
  pub infer_starts : ℕ
  pub infer_ends : ℕ
  pub status_gets : ℕ

-- `Server`. `load_ch` is the load in flight with the failure that it was started with, `unload_ch` the
-- unload, and `running` counts the inferences that have not ended.
pub record Server : Type 0 where
  pub endpoint_alive : Bool
  pub prepare_fail : Bool
  pub load_fail : LoadFailMode
  pub unload_fail : Bool
  pub status_mode : StatusMode
  pub model_state : WireState
  pub residency : Residency
  pub active : ℕ
  pub last_error : Option LastError
  pub counts : Counts
  pub load_ch : Option LoadFailMode
  pub unload_ch : Option Bool
  pub running : ℕ

abbrev no_counts : Counts
no_counts = record {
  prepare_starts = 0;
  prepare_ends = 0;
  load_starts = 0;
  load_ends = 0;
  unload_starts = 0;
  unload_ends = 0;
  infer_starts = 0;
  infer_ends = 0;
  status_gets = 0;
}

-- New, without options.
unfoldable pub new_server : Server
new_server = record {
  endpoint_alive = true;
  prepare_fail = false;
  load_fail = load_ok;
  unload_fail = false;
  status_mode = normal;
  model_state = WireState.unloaded;
  residency = Residency.not_resident;
  active = 0;
  last_error = none;
  counts = no_counts;
  load_ch = none;
  unload_ch = none;
  running = 0;
}

-- The options of New, and the setters.
pub data Setting : Type 0 where
  initial_loading : Setting
  status_mode_to : StatusMode → Setting
  load_failure_to : LoadFailMode → Setting
  unload_failure_to prepare_failure_to alive_to : Bool → Setting

abbrev pub failure : String → String → Option LastError
failure code message = some (record { code = code; message = message })

unfoldable pub with_setting : Setting → Server → Server
with_setting initial_loading s = record s {
  model_state = WireState.loading;
  residency = Residency.unknown;
}
with_setting (status_mode_to m) s = record s { status_mode = m }
with_setting (load_failure_to m) s = record s { load_fail = m }
with_setting (unload_failure_to b) s = record s { unload_fail = b }
with_setting (prepare_failure_to b) s = record s { prepare_fail = b }
with_setting (alive_to b) s = record s { endpoint_alive = b }

unfoldable pub force_ready : Server → Server
force_ready s = record s {
  model_state = WireState.ready;
  residency = Residency.resident;
  active = 0;
  last_error = none;
}

unfoldable pub force_unloaded : Server → Server
force_unloaded s = record s {
  model_state = WireState.unloaded;
  residency = Residency.not_resident;
  active = 0;
  last_error = none;
}

unfoldable pub force_failed : Residency → Server → Server
force_failed res s = record s {
  model_state = WireState.failed;
  residency = res;
  active = 0;
  last_error = failure "LOAD_FAILED" "injected";
}

abbrev pub is_failed : WireState → Bool
is_failed WireState.failed = true
is_failed _ = false

abbrev pub or_injected : Option LastError → Option LastError
or_injected none = failure "LOAD_FAILED" "injected"
or_injected (some e) = some e

unfoldable pub set_wire : WireState → Residency → ℕ → Server → Server
set_wire state res active s = record s {
  model_state = state;
  residency = res;
  active = active;
  last_error = if is_failed state then or_injected s.last_error else none;
}

unfoldable pub status_locked : Server → Status
status_locked s = record {
  state = s.model_state;
  residency = s.residency;
  active_requests = s.active;
  last_error = s.last_error;
}

unfoldable pub busy_locked : Server → Bool
busy_locked s = ltb 0 s.active
