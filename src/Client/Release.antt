-- ===== src/Client/Release.antt =====
-- internal/runtime/client.go: doStop.
use infer_swap.Common.{Bool, true, false, ◌&&◌, ◌==◌, ltb, if◌then◌else◌}
use infer_swap.Wire.{Status, is_wire_unloaded, is_not_resident}
use infer_swap.Client.Types.{
  Err, refused, not_confirmed, Answer, status, error, Outcome, done, failed,
}
use infer_swap.Client.Ensure.{is_timeout, is_wire_loading}

-- What doStop meets: the status, the unload, and the status after a timeout.
pub record Remote : Type 0 where
  pub first : Answer
  pub posted : Answer
  pub observed : Answer

-- Unloaded, not resident, and without requests.
abbrev pub is_released : Status → Bool
is_released st =
    is_wire_unloaded st.state && is_not_resident st.residency && st.active_requests == 0

unfoldable pub after_timeout : Err → Answer → Outcome
after_timeout e (error ferr) = failed e
after_timeout e (status st) = if is_released st then done else failed not_confirmed

unfoldable pub unloaded : Remote → Answer → Outcome
unfolding after_timeout
unloaded r (error e) = if is_timeout e then after_timeout e r.observed else failed e
unloaded r (status st) = if is_released st then done else failed not_confirmed

-- The outcome, and whether the unload was posted.
unfoldable pub stop_from : Remote → Answer → Outcome × Bool
unfolding unloaded
stop_from r (error e) = (failed e, false)
stop_from r (status st) =
    if is_released st
    then (done, false)
    else if ltb 0 st.active_requests
    then (failed refused, false)
    else if is_wire_loading st.state
    then (failed refused, false)
    else (unloaded r r.posted, true)

unfoldable pub do_stop : Remote → Outcome × Bool
unfolding stop_from
do_stop r = stop_from r r.first
