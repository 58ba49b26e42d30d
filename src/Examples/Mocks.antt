-- ===== src/Examples/Mocks.antt =====
-- The mock with a load, an inference and a failure, and its status as a client reads it.
use infer_swap.Common.{false, true, ◌≡◌, ◌||◌, refl, none, some, List, [], ◌∷◌, ok, arith}
use infer_swap.Wire.{WireState, Residency, Status, validate_status}
use infer_swap.Wire.Json.{text, object, member, no_members, null}
use infer_swap.Wire.Parse.{parse_status}
use infer_swap.Wire.Written.{write_status, parse_status-write_status}
use infer_swap.Mock.State.{force_ready, new_server, status_locked}
use infer_swap.Mock.Handlers.{
  Control, handle_load, handle_unload, start_inference, run_load, write_load,
}
use infer_swap.Mock.Control.{
  Event, load, load_end, infer, unload, mock_run, mock_step, forced_ready, handle_status,
  read_status,
}
use infer_swap.Client.Types.{done}
use infer_swap.Client.Release.{do_stop}
use infer_swap.Client.Ensure.{do_ensure}
use infer_swap.Mock.Served.{
  Stopping, Loading, stop_remote, load_remote, is_gone, is_up, any_up, do_stop-is_gone,
  do_ensure-is_up,
}
use infer_swap.Mock.Honest.{read_status-mock_run}

abbrev busy_status : Status
busy_status = record {
  state = WireState.ready;
  residency = Residency.resident;
  active_requests = 2;
  last_error = some (record { code = "BUSY"; message = "" });
}

parse_status-write_status_example : parse_status (some (write_status busy_status)) ≡ ok busy_status
unfolding validate_status
parse_status-write_status_example = parse_status-write_status busy_status refl (omega arith) refl

-- A quoted number passes as the number of requests.
quoted_active :
    parse_status (
      some (
        object (
          member "state" (text "ready") (
            member "residency"
              (text "resident")
              (member "active_requests" (text "2") (member "last_error" null no_members))))))
    ≡ ok (record {
      state = WireState.ready;
      residency = Residency.resident;
      active_requests = 2;
      last_error = none;
    })
unfolding parse_status
quoted_active = refl

abbrev post : Control
post = record { is_post = true; empty_object = true }

abbrev used : List Event
used = load post ∷ load post ∷ load_end ∷ infer ∷ unload post ∷ []

used_status : status_locked (mock_run used new_server) ≡ record {
  state = WireState.ready;
  residency = Residency.resident;
  active_requests = 1;
  last_error = none;
}
unfolding status_locked new_server handle_load run_load start_inference handle_unload mock_step
used_status = refl

read_status-mock_run_example :
    read_status (handle_status (mock_run used new_server)).1
    ≡ some (status_locked (mock_run used new_server))
unfolding new_server handle_load run_load start_inference handle_unload mock_step
read_status-mock_run_example = read_status-mock_run used refl (omega arith)

-- An unload that ends well, read again after a timeout.
abbrev stopping : Stopping
stopping = record {
  first = mock_run (forced_ready ∷ []) new_server;
  posted = new_server;
  late = true;
  observed = new_server;
}

stopping-done : (do_stop (stop_remote stopping)).0 ≡ done
unfolding do_stop read_status handle_status new_server mock_step force_ready
stopping-done = refl

do_stop-is_gone_example :
    (is_gone stopping.first || is_gone stopping.posted || is_gone stopping.observed) ≡ true
unfolding new_server mock_step validate_status status_locked force_ready
do_stop-is_gone_example =
    do_stop-is_gone stopping (refl, omega arith) (refl, omega arith) stopping-done

abbrev loading : Loading
loading = record {
  first = new_server;
  prepared = done;
  second = new_server;
  now = 0;
  gate = done;
  posted_at = 1;
  posted = mock_run (load post ∷ load_end ∷ []) new_server;
  late = false;
  observed = new_server;
  rounds = [];
}

loading-done : (do_ensure (load_remote loading) 5).0 ≡ done
unfolding do_ensure read_status handle_status new_server mock_step handle_load run_load write_load
loading-done = refl

do_ensure-is_up_example :
    (is_up loading.first
      || is_up loading.second
      || is_up loading.posted
      || is_up loading.observed
      || any_up loading.rounds)
    ≡ true
unfolding new_server validate_status status_locked
do_ensure-is_up_example =
    do_ensure-is_up loading 5 (refl, omega arith) (refl, omega arith) (refl, omega arith) tt
      loading-done
