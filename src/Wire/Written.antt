-- ===== src/Wire/Written.antt =====
-- internal/runtime/mock/types.go and handlers.go, and internal/server/server.go: the JSON value that a
-- status and a control error are written as, against the parser of internal/runtime/parse.go.
use infer_swap.Common.{
  >>=-ok, ℕ, ◌<◌, ◌^◌, Bool, true, false, not, ◌≡◌, refl, Option, none, some, String, is_blank_text,
  ok, arith,
}
use infer_swap.Wire.{WireState, Residency, Status, LastError, validate_status}
use infer_swap.Wire.Json.{Json, null, integer, text, object, no_members, member}
use infer_swap.Wire.Parse.{
  parse_status, parse_control_error, decode_string, decode_active, decode_error, decode_last_error,
  state_of, residency_of, decode_members,
}

abbrev pub state_text : WireState → String
state_text WireState.unloaded = "unloaded"
state_text WireState.loading = "loading"
state_text WireState.ready = "ready"
state_text WireState.unloading = "unloading"
state_text WireState.failed = "failed"

abbrev pub residency_text : Residency → String
residency_text Residency.resident = "resident"
residency_text Residency.not_resident = "not_resident"
residency_text Residency.unknown = "unknown"

abbrev error_object : LastError → Json
error_object e = object (member "code" (text e.code) (member "message" (text e.message) no_members))

abbrev pub write_last_error : Option LastError → Json
write_last_error none = null
write_last_error (some e) = error_object e

unfoldable pub write_status : Status → Json
write_status st = object (
    member "state" (text (state_text st.state)) (
      member "residency" (text (residency_text st.residency)) (
        member "active_requests" (integer false st.active_requests)
          (member "last_error" (write_last_error st.last_error) no_members))))

unfoldable pub write_control_error : LastError → Json
write_control_error e = object (member "error" (error_object e) no_members)

-- An error that has a code, or none.
abbrev pub is_coded : Option LastError → Bool
is_coded none = true
is_coded (some e) = not (is_blank_text e.code)

state_of-state_text : (s : WireState) → state_of (state_text s) ≡ some s
unfolding state_of
state_of-state_text WireState.unloaded = refl
state_of-state_text WireState.loading = refl
state_of-state_text WireState.ready = refl
state_of-state_text WireState.unloading = refl
state_of-state_text WireState.failed = refl

residency_of-residency_text : (r : Residency) → residency_of (residency_text r) ≡ some r
unfolding residency_of
residency_of-residency_text Residency.resident = refl
residency_of-residency_text Residency.not_resident = refl
residency_of-residency_text Residency.unknown = refl

decode_string-state_text :
    (s : WireState) → decode_string (text (state_text s)) "state" ≡ ok (state_text s)
unfolding decode_string
decode_string-state_text WireState.unloaded = refl
decode_string-state_text WireState.loading = refl
decode_string-state_text WireState.ready = refl
decode_string-state_text WireState.unloading = refl
decode_string-state_text WireState.failed = refl

decode_string-residency_text :
    (r : Residency) → decode_string (text (residency_text r)) "residency" ≡ ok (residency_text r)
unfolding decode_string
decode_string-residency_text Residency.resident = refl
decode_string-residency_text Residency.not_resident = refl
decode_string-residency_text Residency.unknown = refl

decode_active-integer : (n : ℕ) → n < 2 ^ 63 → decode_active (integer false n) ≡ ok n
unfolding decode_active
decode_active-integer n h = ground arith

decode_error-error_object :
    (e : LastError) → is_blank_text e.code ≡ false → decode_error (error_object e) ≡ ok e
unfolding decode_error
decode_error-error_object e h = ground (arith, h)

decode_last_error-write_last_error :
    (o : Option LastError) → is_coded o ≡ true → decode_last_error (write_last_error o) ≡ ok o
unfolding decode_last_error
decode_last_error-write_last_error none h = refl
decode_last_error-write_last_error (some e) h =
    ground (arith, decode_error-error_object e (ground (arith, h)))

-- A status that passes the validation, with an int64 for the requests and a code in its error, is read
-- back as it was written.
pub parse_status-write_status :
    (st : Status)
    → validate_status st ≡ true
    → st.active_requests < 2 ^ 63
    → is_coded st.last_error ≡ true
    → parse_status (some (write_status st)) ≡ ok st
unfolding parse_status decode_members write_status
parse_status-write_status st valid small coded = >>=-ok _ _ (decode_string-state_text st.state) (
    >>=-ok _ _ (decode_string-residency_text st.residency) (
      >>=-ok _ _ (decode_active-integer st.active_requests small) (
        >>=-ok _ _ (decode_last_error-write_last_error st.last_error coded) (
          ground (
            arith,
            state_of-state_text st.state,
            residency_of-residency_text st.residency,
            valid,
          )))))

-- A control error with a code is read back as it was written.
pub parse_control_error-write_control_error :
    (e : LastError)
    → is_blank_text e.code ≡ false
    → parse_control_error (some (write_control_error e)) ≡ ok e
unfolding parse_control_error write_control_error
parse_control_error-write_control_error e h = decode_error-error_object e h
