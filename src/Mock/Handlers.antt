-- ===== src/Mock/Handlers.antt =====
-- internal/runtime/mock/handlers.go and server.go: the steps of loads, unloads, inferences and prepares.
-- Each function is what happens while the lock is held; a handler that waits for a load or an unload
-- writes its answer in a later step.
use infer_swap.Common.{
  ℕ, ◌+◌, ◌-◌, Bool, true, false, not, ◌&&◌, ◌||◌, Option, none, some, String, if◌then◌else◌, ltb,
  same_text,
}
use infer_swap.Wire.{
  WireState, Residency, Status, LastError, is_wire_ready, is_resident, is_not_resident,
  is_wire_unloaded,
}
use infer_swap.Mock.State.{
  Server, LoadFailMode, load_ok, fail_not_resident, fail_unknown, status_locked, busy_locked,
  failure, is_failed,
}

-- What a handler writes, or that it waits for the load or the unload in flight.
pub data Answer : Type 0 where
  ok_status : Status → Answer
  ok_prepared : Answer
  fault : ℕ → String → Answer
  waits : Answer

abbrev pub is_loading : WireState → Bool
is_loading WireState.loading = true
is_loading _ = false

abbrev pub is_some {ℓ} : {A : Type ℓ} → Option A → Bool
is_some none = false
is_some (some a) = true

abbrev conflict : Answer
conflict = fault 409 "LIFECYCLE_CONFLICT"

-- A load that no other is in flight for.
unfoldable pub start_load : Server → Server
start_load s = record s {
  counts = record s.counts { load_starts = s.counts.load_starts + 1 };
  model_state = WireState.loading;
  residency = Residency.unknown;
  load_ch = some s.load_fail;
}

unfoldable pub join_load : Server → Server × Answer
unfolding start_load
join_load s = ((if is_some s.load_ch then s else start_load s), waits)

unfoldable pub load_in : WireState → Server → Server × Answer
unfolding join_load status_locked
load_in WireState.ready s = (s, ok_status (status_locked s))
load_in WireState.unloading s = (s, conflict)
load_in WireState.failed s = if is_not_resident s.residency then join_load s else (s, conflict)
load_in WireState.loading s = join_load s
load_in WireState.unloaded s = join_load s

-- A control request: a POST with a body that is empty or an empty object.
pub record Control : Type 0 where
  pub is_post : Bool
  pub empty_object : Bool

unfoldable pub handle_load : Control → Server → Server × Answer
unfolding load_in
handle_load c s =
    if not c.is_post
    then (s, fault 405 "BAD_REQUEST")
    else if not c.empty_object
    then (s, fault 400 "BAD_REQUEST")
    else load_in s.model_state s

unfoldable pub load_result : LoadFailMode → Server → Server
load_result fail_not_resident s = record s {
  model_state = WireState.failed;
  residency = Residency.not_resident;
  active = 0;
  last_error = failure "LOAD_FAILED" "load failed";
}
load_result fail_unknown s = record s {
  model_state = WireState.failed;
  residency = Residency.unknown;
  active = 0;
  last_error = failure "LOAD_FAILED" "load failed after partial GPU allocation";
}
load_result load_ok s = record s {
  model_state = WireState.ready;
  residency = Residency.resident;
  last_error = none;
}

unfoldable pub load_done : Option LoadFailMode → Server → Server
unfolding load_result
load_done none s = s
load_done (some fail) s =
    load_result fail
      (record s { counts = record s.counts { load_ends = s.counts.load_ends + 1 }; load_ch = none })

-- runLoad, the goroutine of the load in flight.
unfoldable pub run_load : Server → Server
unfolding load_done
run_load s = load_done s.load_ch s

unfoldable pub write_load : Server → Answer
unfolding status_locked
write_load s =
    if is_failed s.model_state then fault 500 "LOAD_FAILED" else ok_status (status_locked s)

unfoldable pub start_unload : Server → Server
start_unload s = record s {
  counts = record s.counts { unload_starts = s.counts.unload_starts + 1 };
  model_state = WireState.unloading;
  unload_ch = some s.unload_fail;
}

abbrev pub is_clear : Server → Bool
is_clear s = is_not_resident s.residency

-- The state after an unload, or after one that there was nothing to do for.
unfoldable pub unloaded : Server → Server
unloaded s = record s {
  model_state = WireState.unloaded;
  residency = Residency.not_resident;
  active = 0;
  last_error = none;
}

unfoldable pub unload_now : Server → Server × Answer
unfolding start_unload unloaded status_locked busy_locked
unload_now s =
    if is_loading s.model_state
    then (s, conflict)
    else if busy_locked s
    then (s, fault 409 "BUSY")
    else if is_wire_unloaded s.model_state && is_clear s
    then (s, ok_status (status_locked s))
    else if is_failed s.model_state && is_clear s
    then (unloaded s, ok_status (status_locked (unloaded s)))
    else if is_some s.unload_ch
    then (s, waits)
    else (start_unload s, waits)

unfoldable pub handle_unload : Control → Server → Server × Answer
unfolding unload_now
handle_unload c s =
    if not c.is_post
    then (s, fault 405 "BAD_REQUEST")
    else if not c.empty_object
    then (s, fault 400 "BAD_REQUEST")
    else unload_now s

unfoldable pub unload_result : Bool → Server → Server
unfolding unloaded busy_locked
unload_result fail s =
    if busy_locked s
    then record s {
      model_state = WireState.ready;
      residency = Residency.resident;
      last_error = failure "BUSY" "runtime has active inference requests";
    }
    else if fail
    then record s {
      model_state = WireState.failed;
      residency = Residency.resident;
      last_error = failure "UNLOAD_FAILED" "failed to release model";
    }
    else unloaded s

unfoldable pub unload_done : Option Bool → Server → Server
unfolding unload_result
unload_done none s = s
unload_done (some fail) s = unload_result fail (record s {
  counts = record s.counts { unload_ends = s.counts.unload_ends + 1 };
  unload_ch = none;
})

-- runUnload, the goroutine of the unload in flight.
unfoldable pub run_unload : Server → Server
unfolding unload_done
run_unload s = unload_done s.unload_ch s

abbrev is_busy_error : Option LastError → Bool
is_busy_error none = false
is_busy_error (some e) = same_text e.code "BUSY"

unfoldable pub write_unload : Server → Answer
unfolding status_locked
write_unload s =
    if is_busy_error s.last_error
    then fault 409 "BUSY"
    else if is_failed s.model_state
    then fault 500 "UNLOAD_FAILED"
    else ok_status (status_locked s)

-- handleInference up to its gates, for a path that it serves; `none` is an inference that goes on.
unfoldable pub start_inference : Server → Server × Option Answer
start_inference s =
    if not (is_wire_ready s.model_state) || not (is_resident s.residency)
    then (s, some (fault 503 "NOT_READY"))
    else (
      record s {
        counts = record s.counts { infer_starts = s.counts.infer_starts + 1 };
        active = s.active + 1;
        running = s.running + 1;
      },
      none,
    )

-- finishInference, of an inference that runs.
unfoldable pub finish_inference : Server → Server
finish_inference s =
    if ltb 0 s.running
    then record s {
      counts = record s.counts { infer_ends = s.counts.infer_ends + 1 };
      active = s.active - 1;
      running = s.running - 1;
    }
    else s

unfoldable pub start_prepare : Server → Server
start_prepare s = record s {
  counts = record s.counts { prepare_starts = s.counts.prepare_starts + 1 };
}

-- The end of Prepare, with what it read at its start: whether it fails, and whether the endpoint was alive.
unfoldable pub end_prepare : Bool → Bool → Server → Server × Answer
unfolding unloaded
end_prepare fail already s =
    let s' = record s { counts = record s.counts { prepare_ends = s.counts.prepare_ends + 1 } } in
    if fail
    then (s', fault 500 "PREPARE_FAILED")
    else if already
    then (s', ok_prepared)
    else (record (unloaded s') { endpoint_alive = true }, ok_prepared)
