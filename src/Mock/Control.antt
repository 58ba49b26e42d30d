-- ===== src/Mock/Control.antt =====
-- internal/runtime/mock/handlers.go, server.go and types.go: handleStatus behind wrapPublic,
-- decodeEmptyObject, and all steps of the mock as events.
use infer_swap.Common.{
  ℕ, ◌+◌, Bool, true, false, not, Option, none, some, List, [], ◌∷◌, String, if◌then◌else◌, ◌==◌,
  Result, ok, err,
}
use infer_swap.Wire.{WireState, Residency, Status}
use infer_swap.Wire.Json.{Json, null, integer, text, object, Members, no_members, member}
use infer_swap.Wire.Parse.{parse_status}
use infer_swap.Wire.Written.{write_status, write_control_error}
use infer_swap.Mock.State.{
  Server, StatusMode, normal, malformed, transport_error, unreliable, null_active, negative_active,
  ready_not_resident, missing_active, Setting, with_setting, force_ready, force_unloaded,
  force_failed, set_wire, status_locked,
}
use infer_swap.Mock.Handlers.{
  Control, handle_load, run_load, handle_unload, run_unload, start_inference, finish_inference,
  start_prepare, end_prepare,
}

-- The body of a control request, as far as it is read: blank, no JSON, or a value.
pub data Payload : Type 0 where
  blank garbage : Payload
  value : Json → Payload

abbrev no_member : Members → Bool
no_member no_members = true
no_member (member k v ms) = false

-- decodeEmptyObject. Unmarshal takes null for a map.
unfoldable pub decode_empty_object : Payload → Bool
decode_empty_object blank = true
decode_empty_object garbage = false
decode_empty_object (value (object ms)) = no_member ms
decode_empty_object (value null) = true
decode_empty_object (value _) = false

-- What comes over the connection: nothing, since it is closed, or a status code with a body that is
-- JSON or not.
pub data Written : Type 0 where
  closed : Written
  written : ℕ → Option Json → Written

abbrev fields : String → String → Members → Json
fields state residency rest =
    object (member "state" (text state) (member "residency" (text residency) rest))

abbrev active_and_error : Json → Members
active_and_error active = member "active_requests" active (member "last_error" null no_members)

unfoldable pub status_body : StatusMode → Status → Written
unfolding write_status write_control_error
status_body normal st = written 200 (some (write_status st))
status_body malformed st = written 200 none
status_body transport_error st = closed
status_body unreliable st =
    written 500 (
      some
        (write_control_error (record { code = "STATUS_FAILED"; message = "status unavailable" })))
status_body null_active st =
    written 200 (some (fields "unloaded" "not_resident" (active_and_error null)))
status_body negative_active st =
    written 200 (some (fields "ready" "resident" (active_and_error (integer true 1))))
status_body missing_active st =
    written 200 (some (fields "unloaded" "not_resident" (member "last_error" null no_members)))
status_body ready_not_resident st =
    written 200 (some (fields "ready" "not_resident" (active_and_error (integer false 0))))

-- A GET of the status, behind wrapPublic.
unfoldable pub handle_status : Server → Server × Written
unfolding status_body status_locked
handle_status s = if not s.endpoint_alive then (s, closed) else (
  record s { counts = record s.counts { status_gets = s.counts.status_gets + 1 } },
  status_body s.status_mode (status_locked s),
)

-- What a client makes of it: a status, if it comes with code 200 and parses.
abbrev status_or_none {ℓ} : {E : Type 0} {A : Type ℓ} → Result E A → Option A
status_or_none (ok a) = some a
status_or_none (err e) = none

unfoldable pub read_status : Written → Option Status
unfolding parse_status
read_status closed = none
read_status (written code body) = if code == 200 then status_or_none (parse_status body) else none

pub data Event : Type 0 where
  setting : Setting → Event
  forced_ready forced_unloaded : Event
  forced_failed : Residency → Event
  wire : WireState → Residency → ℕ → Event
  load unload : Control → Event
  load_end unload_end infer infer_end prepare status : Event
  prepare_end : Bool → Bool → Event

unfoldable pub mock_step : Event → Server → Server
unfolding handle_status handle_load handle_unload run_load run_unload start_inference
mock_step (setting x) s = with_setting x s
mock_step forced_ready s = force_ready s
mock_step forced_unloaded s = force_unloaded s
mock_step (forced_failed res) s = force_failed res s
mock_step (wire st res n) s = set_wire st res n s
mock_step (load c) s = (handle_load c s).0
mock_step (unload c) s = (handle_unload c s).0
mock_step load_end s = run_load s
mock_step unload_end s = run_unload s
mock_step infer s = (start_inference s).0
mock_step infer_end s = finish_inference s
mock_step prepare s = start_prepare s
mock_step (prepare_end fail already) s = (end_prepare fail already s).0
mock_step status s = (handle_status s).0

abbrev pub mock_run : List Event → Server → Server
mock_run [] s = s
mock_run (e ∷ es) s = mock_run es (mock_step e s)
