-- ===== src/Wire.antt =====
-- internal/runtime/runtime.go and internal/runtime/recover.go: the states of a runtime, the wire
-- status of a model project, and the request-time recovery matrix.
pub mod Matrix
pub mod Json
pub mod Parse
pub mod Written
pub mod Validated
use infer_swap.Common.{
  ℕ, Bool, true, false, not, ◌&&◌, ◌||◌, Option, none, some, ◌==◌, if◌then◌else◌, String,
}

pub data State : Type 0 where
  unknown stopped starting ready stopping failed shutdown : State

pub data WireState : Type 0 where
  unloaded loading ready unloading failed : WireState

pub data Residency : Type 0 where
  resident not_resident unknown : Residency

pub record LastError : Type 0 where
  pub code : String
  pub message : String

pub record Status : Type 0 where
  pub state : WireState
  pub residency : Residency
  pub active_requests : ℕ
  pub last_error : Option LastError

pub data RecoveryClass : Type 0 where
  invalid ready_idle ready_busy unloaded_idle : RecoveryClass
  failed_not_resident_idle failed_not_resident_busy failed_occupied in_progress : RecoveryClass

pub data StatusErrKind : Type 0 where
  no_error endpoint_down other : StatusErrKind

pub data ApplyCode : Type 0 where
  applied busy stale : ApplyCode

abbrev pub is_ready : State → Bool
is_ready State.ready = true
is_ready _ = false

abbrev pub is_starting : State → Bool
is_starting State.starting = true
is_starting _ = false

-- Stopped, Unknown and Shutdown do not count as running.
abbrev pub is_running : State → Bool
is_running State.stopped = false
is_running State.unknown = false
is_running State.shutdown = false
is_running _ = true

abbrev pub is_failed_or_unknown : State → Bool
is_failed_or_unknown State.failed = true
is_failed_or_unknown State.unknown = true
is_failed_or_unknown _ = false

abbrev pub is_wire_ready : WireState → Bool
is_wire_ready WireState.ready = true
is_wire_ready _ = false

abbrev pub is_wire_unloaded : WireState → Bool
is_wire_unloaded WireState.unloaded = true
is_wire_unloaded _ = false

abbrev pub is_resident : Residency → Bool
is_resident Residency.resident = true
is_resident _ = false

abbrev pub is_not_resident : Residency → Bool
is_not_resident Residency.not_resident = true
is_not_resident _ = false

-- The rows of the switch, by state and residency; the requests tell idle from busy.
unfoldable pub classify : WireState → Residency → ℕ → RecoveryClass
classify WireState.ready Residency.resident active = if active == 0 then ready_idle else ready_busy
classify WireState.unloaded Residency.not_resident active =
    if active == 0 then unloaded_idle else invalid
classify WireState.failed Residency.not_resident active =
    if active == 0 then failed_not_resident_idle else failed_not_resident_busy
classify WireState.failed Residency.resident active = failed_occupied
classify WireState.failed Residency.unknown active = failed_occupied
classify WireState.loading _ active = in_progress
classify WireState.unloading _ active = in_progress
classify _ _ active = invalid

-- The request-time status matrix of a parsed status.
unfoldable pub classify_recovery : Status → RecoveryClass
unfolding classify
classify_recovery st = classify st.state st.residency st.active_requests

-- `validateStatus`, for a state and a residency that are among the constants.
unfoldable pub validate_status : Status → Bool
validate_status st =
    not (is_wire_ready st.state && not (is_resident st.residency))
    && not (
        is_wire_unloaded st.state
        && (not (is_not_resident st.residency) || not (st.active_requests == 0)))

abbrev pub is_invalid_class : RecoveryClass → Bool
is_invalid_class RecoveryClass.invalid = true
is_invalid_class _ = false
