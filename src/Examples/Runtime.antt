-- ===== src/Examples/Runtime.antt =====
-- A client whose load is under way, and the control calls of a load and of an unload.
use infer_swap.Common.{
  Option, some, ok, ◌||◌, true, false, ◌≡◌, ◌≢◌, ◌⊎◌, refl, none, List, [], ◌∷◌, ◌++◌, next_u64,
}
use infer_swap.Wire.{
  State, WireState, Residency, Status, RecoveryClass, stale, classify_recovery, unloaded_idle,
}
use infer_swap.Wire.Json.{Json}
use infer_swap.Wire.Parse.{parse_status}
use infer_swap.Wire.Written.{write_status}
use infer_swap.Wire.Validated.{IsParsed}
use infer_swap.Client.Calls.{answered, Exchange, fetch_status}
use infer_swap.Client.Fetched.{fetch_status-IsParsed}
use infer_swap.Client.Types.{
  Client, status, error, done, canceled, is_down, ApplyCmd, answer, ack, start_load,
}
use infer_swap.Client.Loop.{
  Event, ready, stop, apply, reconcile, new_client, step, run, answers, on_ready, start_op,
  set_state, ready_in, event_of,
}
use infer_swap.Client.Inv.{IsSound, run-IsSound}
use infer_swap.Client.Answers.{stop_answers, apply_once, reconcile_second_load}
use infer_swap.Client.Ensure.{Remote, do_ensure}
use infer_swap.Client.Release
use infer_swap.Client.Release.{do_stop}
use infer_swap.Client.Evidence.{
  shows_released, saw_ready, posts_load, allows_load, do_ensure-ready, post_load_gated,
  do_stop-released,
}

-- Two callers wait for one load.
abbrev two_calls : List Event
two_calls = Event.ready 1 ∷ Event.ready 2 ∷ []

abbrev loading : Client
loading = run two_calls (new_client true)

abbrev fresh : Client
fresh = run [] (new_client true)

run-IsSound_example : IsSound loading
run-IsSound_example = run-IsSound true two_calls

loading_runs : (loading.halted ≡ false) × (loading.op ≢ none)
unfolding run step new_client event_of on_ready ready_in start_op set_state
loading_runs = (refl, λ e. cc)

fresh_free : (fresh.halted ≡ false) × (fresh.op ≡ none) × (0 ≡ fresh.gen)
unfolding run new_client
fresh_free = (refl, refl, refl)

stop_answers_example :
    let t = step (stop 3 done) loading in
    (t.sent ≡ (loading.sent ++ answers done loading.waiters) ++ answer 3 done ∷ [])
    × (t.waiters ≡ [])
    × (t.op ≡ none)
    × (t.state ≡ State.stopped)
stop_answers_example = stop_answers loading (run-IsSound true two_calls) loading_runs.0 3 done

abbrev gone : Status
gone = record {
  state = WireState.unloaded;
  residency = Residency.not_resident;
  active_requests = 0;
  last_error = none;
}

abbrev recovery : ApplyCmd
recovery = record { gen = 0; class = unloaded_idle; status = gone; has_status = true }

apply_once_example :
    let t = step (apply recovery) fresh in
    step (apply recovery) t ≡ record t { sent = t.sent ++ ack stale ∷ [] }
apply_once_example =
    apply_once fresh (run-IsSound true []) fresh_free.0 recovery fresh_free.1 fresh_free.2

reconcile_second_load_example :
    let t = step (ready 5) (step (reconcile 4 (status gone)) loading) in
    t.sent ≡ (loading.sent ++ answer 4 done ∷ []) ++ start_load (next_u64 loading.gen) ∷ []
reconcile_second_load_example =
    reconcile_second_load loading (run-IsSound true two_calls) loading_runs.0 4 5 gone
      loading_runs.1 refl

abbrev loaded : Status
loaded = record gone { state = WireState.ready; residency = Residency.resident }

-- A dead endpoint that the prepare command brings up; the load then succeeds.
abbrev remote : Remote
remote = record {
  first = error is_down;
  prepared = done;
  second = status gone;
  now = 10;
  gate = done;
  posted_at = 20;
  posted = status loaded;
  observed = error canceled;
  polls = [];
}

remote_loads : ((do_ensure remote 100).0 ≡ done) × (posts_load (do_ensure remote 100).1 ≡ true)
unfolding do_ensure
remote_loads = (refl, refl)

do_ensure-ready_example : saw_ready remote ≡ true
do_ensure-ready_example = do_ensure-ready remote 100 remote_loads.0

post_load_gated_example :
    (remote.gate ≡ done)
    × ((allows_load remote.first ≡ true)
        ⊎ ((true ≡ true) × (remote.prepared ≡ done) × (allows_load remote.second ≡ true)))
post_load_gated_example = post_load_gated remote 100 remote_loads.1

abbrev release : Release.Remote
release = record { first = status loaded; posted = status gone; observed = error canceled }

release_posts : ((do_stop release).0 ≡ done) × ((do_stop release).1 ≡ true)
unfolding do_stop
release_posts = (refl, refl)

do_stop-released_example : false || shows_released release.posted || false ≡ true
do_stop-released_example = do_stop-released release release_posts.0

abbrev gone_exchange : Exchange
gone_exchange = answered 200 (some (write_status gone))

gone_fetched : fetch_status gone_exchange ≡ ok gone
unfolding fetch_status write_status
gone_fetched = refl

fetch_status-IsParsed_example :
    ((body : Option Json) × (gone_exchange ≡ answered 200 body) × (parse_status body ≡ ok gone))
    × IsParsed gone
    × (classify_recovery gone ≢ RecoveryClass.invalid)
fetch_status-IsParsed_example = fetch_status-IsParsed gone_exchange gone gone_fetched
