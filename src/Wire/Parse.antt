-- ===== src/Wire/Parse.antt =====
-- internal/runtime/parse.go: ParseStatus and ParseControlError, on the JSON value of a body; a body that
-- is no JSON is `none`.
use infer_swap.Common.{
  ℕ, Bool, true, false, not, ◌&&◌, Option, none, some, String, ◌==◌, if◌then◌else◌, same_text,
  is_blank_text, Result, ok, err, ◌>>=◌,
}
use infer_swap.Wire.{WireState, Residency, Status, LastError, validate_status}
use infer_swap.Wire.Json.{Json, null, Members, member_of, as_map, as_string, as_integer, is_int64}

pub data StatusError : Type 0 where
  malformed : StatusError
  missing null_field bad_text empty_text : String → StatusError
  not_integer negative : StatusError
  bad_last_error bad_code bad_message : StatusError
  invalid_state invalid_residency : String → StatusError
  inconsistent : StatusError

abbrev pub required : String → Members → Result StatusError Json
required k ms = elim (member_of k ms) [ none ↦ err (missing k) | some v ↦ ok v ]

abbrev pub is_null : Json → Bool
is_null null = true
is_null _ = false

abbrev text_of : String → Option String → Result StatusError String
text_of field none = err (bad_text field)
text_of field (some s) = if is_blank_text s then err (empty_text field) else ok s

unfoldable pub decode_string : Json → String → Result StatusError String
decode_string v field = if is_null v then err (null_field field) else text_of field (as_string v)

abbrev pub active_of : Option (Bool × ℕ) → Result StatusError ℕ
active_of none = err not_integer
active_of (some (minus, n)) =
    if not (is_int64 minus n)
    then err not_integer
    else if minus && not (n == 0)
    then err negative
    else ok n

unfoldable pub decode_active : Json → Result StatusError ℕ
decode_active v = if is_null v then err (null_field "active_requests") else active_of (as_integer v)

abbrev map_of : Json → StatusError → Result StatusError Members
map_of v e = elim (as_map v) [ none ↦ err e | some ms ↦ ok ms ]

abbrev code_of : Option String → Result StatusError String
code_of none = err bad_code
code_of (some s) = if is_blank_text s then err bad_code else ok s

abbrev message_of : Option String → Result StatusError String
message_of none = err bad_message
message_of (some s) = ok s

-- A code that is no empty string, and a message, which may be null.
unfoldable pub decode_error : Json → Result StatusError LastError
decode_error v = do
  ms ← map_of v bad_last_error
  raw_code ← required "code" ms
  raw_message ← required "message" ms
  code ← code_of (as_string raw_code)
  message ← message_of (as_string raw_message)
  ok (record { code = code; message = message })

unfoldable pub decode_last_error : Json → Result StatusError (Option LastError)
unfolding decode_error
decode_last_error v = if is_null v then ok none else do e ← decode_error v; ok (some e)

unfoldable pub state_of : String → Option WireState
state_of s =
    if same_text s "unloaded"
    then some WireState.unloaded
    else if same_text s "loading"
    then some WireState.loading
    else if same_text s "ready"
    then some WireState.ready
    else if same_text s "unloading"
    then some WireState.unloading
    else if same_text s "failed"
    then some WireState.failed
    else none

unfoldable pub residency_of : String → Option Residency
residency_of s =
    if same_text s "resident"
    then some Residency.resident
    else if same_text s "not_resident"
    then some Residency.not_resident
    else if same_text s "unknown"
    then some Residency.unknown
    else none

abbrev pub valid_or :
    String
    → String
    → Option WireState
    → Option Residency
    → ℕ
    → Option LastError
    → Result StatusError Status
valid_or s t none residency active last = err (invalid_state s)
valid_or s t (some state) none active last = err (invalid_residency t)
valid_or s t (some state) (some residency) active last =
    let st : Status = record {
      state = state;
      residency = residency;
      active_requests = active;
      last_error = last;
    } in
    if validate_status st then ok st else err inconsistent

-- The decoded fields, with the state and the residency among the constants.
unfoldable pub decode_members : Members → Result StatusError Status
unfolding decode_string decode_active decode_last_error state_of residency_of validate_status
decode_members ms = do
  raw_state ← required "state" ms
  raw_residency ← required "residency" ms
  raw_active ← required "active_requests" ms
  raw_last ← required "last_error" ms
  state ← decode_string raw_state "state"
  residency ← decode_string raw_residency "residency"
  active ← decode_active raw_active
  last ← decode_last_error raw_last
  valid_or state residency (state_of state) (residency_of residency) active last

abbrev pub body_map : Option Json → Result StatusError Members
body_map none = err malformed
body_map (some v) = map_of v malformed

unfoldable pub parse_status : Option Json → Result StatusError Status
unfolding decode_members
parse_status body = do ms ← body_map body; decode_members ms

unfoldable pub parse_control_error : Option Json → Result StatusError LastError
unfolding decode_error
parse_control_error body = do ms ← body_map body; raw ← required "error" ms; decode_error raw
