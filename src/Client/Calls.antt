-- ===== src/Client/Calls.antt =====
-- internal/runtime/client.go and recover.go: fetchStatus, postControl, postLoad, isEndpointDown, isTimeout
-- and ClassifyStatusErr, on what net/http answers; and runPrepare.
use infer_swap.Common.{
  ℕ, ◌+◌, ◌-◌, Bool, true, false, not, ◌&&◌, ◌||◌, Option, none, some, List, [], ◌∷◌, ◌++◌, String,
  ◌==◌, leb, slt, if◌then◌else◌, codes, lowered, is_empty, Result, ok, err, ◌>>=◌,
}
use infer_swap.Wire.{Status, LastError, StatusErrKind}
use infer_swap.Wire.Json.{Json}
use infer_swap.Wire.Parse.{
  StatusError, invalid_state, invalid_residency, parse_status, parse_control_error,
}
use infer_swap.Client.Types.{Outcome, failed, canceled, shut_down}

-- An error, as errors.Is and errors.As see its chain: an end of file, the Timeout of the first
-- net.Error, an OpError, the first url.Error with its Timeout and what it wraps, and the text.
mutual
  pub data GoError : Type 0 where
    go_error : Bool → Option Bool → Bool → Wrapped → List ℕ → GoError

  pub data Wrapped : Type 0 where
    no_url : Wrapped
    url_error : Bool → GoError → Wrapped

abbrev starts_with : List ℕ → List ℕ → Bool
starts_with [] cs = true
starts_with (p ∷ ps) [] = false
starts_with (p ∷ ps) (c ∷ cs) = p == c && starts_with ps cs

-- strings.Contains.
abbrev pub contains_text : List ℕ → List ℕ → Bool
contains_text ps [] = is_empty ps
contains_text ps (c ∷ cs) = starts_with ps (c ∷ cs) || contains_text ps cs

-- The texts that stand for a broken connection.
abbrev pub says_down : List ℕ → Bool
says_down msg =
    contains_text (codes "connection refused") msg
    || contains_text (codes "connection reset") msg
    || contains_text (codes "server closed") msg
    || contains_text (codes "eof") (lowered msg)

abbrev pub is_set : Option Bool → Bool
is_set none = false
is_set (some b) = b

unfoldable pub is_endpoint_down : GoError → Bool
is_endpoint_down (go_error eof net op no_url msg) =
    eof || (not (is_set net) && (op || says_down msg))
is_endpoint_down (go_error eof net op (url_error timeout inner) msg) =
    let wrapped = is_endpoint_down inner in
    eof || (not (is_set net) && (op || (not timeout && wrapped)))

abbrev url_timeout : Wrapped → Bool
url_timeout no_url = false
url_timeout (url_error timeout inner) = timeout

unfoldable pub is_timeout : GoError → Bool
is_timeout (go_error eof net op w msg) = is_set net || url_timeout w

unfoldable pub classify_status_err : Option GoError → StatusErrKind
unfolding is_endpoint_down
classify_status_err none = StatusErrKind.no_error
classify_status_err (some e) =
    if is_endpoint_down e then StatusErrKind.endpoint_down else StatusErrKind.other

-- An exchange with the endpoint: an error of the transport, or a status code with a body.
pub data Exchange : Type 0 where
  broken : GoError → Exchange
  answered : ℕ → Option Json → Exchange

-- An error that only has a text.
abbrev pub plain : List ℕ → GoError
plain msg = go_error false none false no_url msg

abbrev quoted : String → List ℕ
quoted s = 34 ∷ codes s ++ 34 ∷ []

-- The texts of the errors of the parser; %q is written out for a text that needs no escape. The texts
-- that wrap an error of encoding/json, or hold no word of the endpoint, are cut to their beginning.
abbrev pub parse_text : StatusError → List ℕ
parse_text (invalid_state s) = codes "status: invalid state " ++ quoted s
parse_text (invalid_residency s) = codes "status: invalid residency " ++ quoted s
parse_text _ = codes "status: "

abbrev pub parsed : Result StatusError Status → Result GoError Status
parsed (ok st) = ok st
parsed (err e) = err (plain (parse_text e))

unfoldable pub fetch_status : Exchange → Result GoError Status
unfolding parse_status
fetch_status (broken e) = err e
fetch_status (answered code body) =
    if code == 200 then parsed (parse_status body) else err (plain (codes "status: HTTP "))

-- A control error, or the error of another answer.
pub data Fault : Type 0 where
  control_fault : ℕ → LastError → Fault
  http_fault : ℕ → Fault
  transport : GoError → Fault

abbrev fault_of : ℕ → Result StatusError LastError → Fault
fault_of code (ok e) = control_fault code e
fault_of code (err e) = http_fault code

unfoldable pub post_control : Exchange → Result Fault (Option Json)
unfolding parse_control_error
post_control (broken e) = err (transport e)
post_control (answered code body) =
    if code == 200 then ok body else err (fault_of code (parse_control_error body))

abbrev parsed_body : Result StatusError Status → Result Fault Status
parsed_body (ok st) = ok st
parsed_body (err e) = err (transport (plain (parse_text e)))

-- postLoad, with the time that is left to the deadline.
unfoldable pub post_load : ℕ → ℕ → Exchange → Result Fault Status
unfolding post_control parse_status
post_load deadline now x =
    if leb deadline now
    then err (transport (plain (codes "load deadline exceeded")))
    else do body ← post_control x; parsed_body (parse_status body)

-- `prepMu`: the command of a client, whether a prepare is still running, and the commands that run.
pub record Prepare : Type 0 where
  pub argv : Option (List String)
  pub busy : Bool
  pub running : ℕ

pub data PrepareEvent : Type 0 where
  called : PrepareEvent
  command_ended : PrepareEvent

abbrev has_command : Option (List String) → Bool
has_command none = false
has_command (some argv) = not (is_empty argv)

-- The start of runPrepare. Whichever case its select takes, the flag is dropped when the command ends.
unfoldable pub prepare_step : PrepareEvent → Prepare → Prepare
prepare_step called p =
    if p.busy || not (has_command p.argv)
    then p
    else record p { busy = true; running = p.running + 1 }
prepare_step command_ended p =
    if p.running == 0 then p else record p { busy = false; running = p.running - 1 }

abbrev pub prepare_run : List PrepareEvent → Prepare → Prepare
prepare_run [] p = p
prepare_run (e ∷ es) p = prepare_run es (prepare_step e p)

abbrev pub new_prepare : Option (List String) → Prepare
new_prepare argv = record { argv = argv; busy = false; running = 0 }

-- A select between a channel of the loop, the caller's context and the end of the client.
pub data Chosen : Type 0 where
  channel context parent : Chosen

-- The second select of a call: the loop's answer, or one of the other two.
abbrev answered_by : Chosen → Outcome → Outcome
answered_by channel o = o
answered_by context o = failed canceled
answered_by parent o = failed shut_down

-- EnsureReady, Stop and Reconcile: whether the loop has taken the call, and what it answers.
unfoldable pub ask_loop : Chosen → Chosen → Outcome → Outcome × Bool
ask_loop channel second o = (answered_by second o, true)
ask_loop context second o = (failed canceled, false)
ask_loop parent second o = (failed shut_down, false)

-- The timeout that Stop hands over.
abbrev pub stop_timeout : ℕ → ℕ → ℕ
stop_timeout timeout unload = if slt 0 timeout then timeout else unload
