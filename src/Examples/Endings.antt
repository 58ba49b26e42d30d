-- ===== src/Examples/Endings.antt =====
-- An unload of one model, a shutdown with one model, and a visit.
use infer_swap.Common.{
  err, ℕ, ◌*◌, ◌≡◌, ◌≢◌, inl, refl, true, false, none, some, List, [], ◌∷◌, lookup, arith,
  if◌then◌else◌, ◌==◌,
}
use infer_swap.Wire.{State, Status, WireState, Residency}
use infer_swap.Resource.Admit.{Snapshot}
use infer_swap.Config.Checks.{second}
use infer_swap.Router.Loop.{Notice, finish_unload}
use infer_swap.Router.Unload.{Round, still_waiting, wait_idle, Look, Job, notice, start_unload}
use infer_swap.Router.Unloaded.{Waits, wait_idle_ends}
use infer_swap.Router.Proved.{IsProved}
use infer_swap.Router.Cleared.{unload_cleared}
use infer_swap.Router.Leave.{Leaving, Budget, shutdown_router, closed}
use infer_swap.Router.Left.{AllConfirmed, shutdown_router-AllConfirmed}
use infer_swap.Router.Visit.{Pick, Visit, admitted, served, serve_model, prepare_model}
use infer_swap.Router.Visited.{Balanced, is_granted, slot_given_back}
use infer_swap.Wire.Json.{object, member, text, integer, null, no_members}
use infer_swap.Wire.Parse.{invalid_state}
use infer_swap.Wire.Written.{write_status}
use infer_swap.Client.Calls.{Exchange, answered, fetch_status, plain, parse_text, is_endpoint_down}
use infer_swap.Router.Loop.{calls_client}
use infer_swap.Router.Messages.{begin_probe}
use infer_swap.Router.Probes.{is_read, begin_probe-calls_client}
use infer_swap.Examples.Budget.{world, model, sample, roomy}

abbrev idle_status : Status
idle_status = record {
  state = WireState.ready;
  residency = Residency.resident;
  active_requests = 0;
  last_error = none;
}

abbrev busy_status : Status
busy_status = record idle_status { active_requests = 1 }

-- Busy at 0 s and 1 s, and idle from 2 s on.
abbrev clock : ℕ → Round
clock i = record {
  now = i * second;
  answer = some (if i == 0 then busy_status else if i == 1 then busy_status else idle_status);
  later = i * second;
  shut = false;
}

clock-Waits : (deadline : ℕ) → Waits deadline clock
clock-Waits deadline i = (omega arith, inl (omega arith))

wait_idle_ends_example : wait_idle (3 * second) clock 4 0 ≢ still_waiting
wait_idle_ends_example =
    wait_idle_ends (3 * second) clock 3 0 (clock-Waits (3 * second)) (omega arith)

abbrev late_sample : Snapshot
late_sample = record sample { observed_at = 9_000_000_000 }

abbrev looks : ℕ → Look
looks i = record {
  answer = if i == 0 then some sample else some late_sample;
  now = 8_000_000_000;
  shut = false;
}

abbrev job : Job
job = record {
  site = λ id. record {
    known = true;
    timeout = none;
    rounds = clock;
    stop = λ _. none;
    stopped_at = 7_000_000_000;
  };
  device = roomy.device;
  drain_timeout = 10_000_000_000;
  unload_timeout = 0;
  now = 0;
  seen_at = 8_000_000_000;
  looks = looks;
}

abbrev done : Notice
done = record { ids = 2 ∷ []; err = none; sample = late_sample; at = 7_000_000_000 }

job-done : start_unload job 4 (2 ∷ []) 0 ≡ notice done
unfolding start_unload
job-done = refl

unload_cleared_example :
    let t = finish_unload world done roomy in
    IsProved job (2 ∷ []) done
    × (lookup 2 t.residual_after ≡ none)
    × (t.reserved 2 ≡ some model.residual)
unload_cleared_example =
    unload_cleared job 4 (2 ∷ []) 0 done world roomy 2 model job-done refl refl refl refl

abbrev leaving : Leaving
leaving = record {
  cancelled = false;
  now = 0;
  ends_at = none;
  polls = λ i. record {
    cancelled = false;
    protected = i == 0;
    now = i * second;
    cancelled_waiting = false;
  };
  state = State.ready;
  rounds = clock;
  stop = λ _. none;
  stopped_at = 7_000_000_000;
  seen_at = 8_000_000_000;
  looks = looks;
}

abbrev budget : Budget
budget = record { device = roomy.device; drain_timeout = 10_000_000_000; shutdown_timeout = 0 }

abbrev two_leaving : List (ℕ × Leaving)
two_leaving = (1, record leaving { state = State.stopped }) ∷ (2, leaving) ∷ []

all_left : shutdown_router budget 4 true true two_leaving ≡ some ([], closed [])
unfolding shutdown_router
all_left = refl

-- A model whose state is unknown is reported.
unknown_reported :
    shutdown_router budget 4 true true ((7, record leaving { state = State.unknown }) ∷ two_leaving)
    ≡ some (7 ∷ [], closed (7 ∷ []))
unfolding shutdown_router
unknown_reported = refl

shutdown_router-AllConfirmed_example : AllConfirmed budget two_leaving
shutdown_router-AllConfirmed_example =
    shutdown_router-AllConfirmed budget 4 true true two_leaving [] all_left

abbrev visit : Visit
visit = record {
  shutting = false;
  handed = Pick.taken;
  admission = admitted;
  answer = served;
  proxied = Pick.taken;
  held = true;
  last_taken = true;
}

slot_given_back_example :
    Balanced (is_granted visit) (serve_model visit).0
    × Balanced (is_granted visit) (prepare_model visit).0
slot_given_back_example = slot_given_back visit refl refl

abbrev idle_exchange : Exchange
idle_exchange = answered 200 (some (write_status idle_status))

begin_probe-calls_client_example :
    calls_client (begin_probe 1 2 3 4 5 idle_exchange) ≡ is_read (fetch_status idle_exchange)
begin_probe-calls_client_example = begin_probe-calls_client 1 2 3 4 5 idle_exchange

-- A state with the letters of an end of file in it makes the endpoint look down.
odd_exchange_down :
    fetch_status (
      answered 200 (
        some (
          object (
            member "state" (text "eof") (
              member "residency" (text "resident") (
                member "active_requests"
                  (integer false 0)
                  (member "last_error" null no_members)))))))
    ≡ err (plain (parse_text (invalid_state "eof")))
unfolding fetch_status
odd_exchange_down = refl

odd_text_down : is_endpoint_down (plain (parse_text (invalid_state "eof"))) ≡ true
unfolding is_endpoint_down
odd_text_down = refl
