-- ===== src/Mock/Honest.antt =====
-- internal/runtime/mock and internal/runtime/parse.go: what a client reads of the mock's status.
use infer_swap.Common.{
  ℕ, ◌+◌, ◌<◌, ◌^◌, Bool, true, false, not, ◌&&◌, ◌||◌, ◌≡◌, refl, inl, inr, Option, none, some,
  List, if◌then◌else◌, ltb, arith, if-cases, Bool-cases,
}
use infer_swap.Wire.{
  WireState, Residency, Status, LastError, validate_status, is_wire_ready, is_wire_unloaded,
  is_resident,
}
use infer_swap.Wire.Written.{is_coded, parse_status-write_status}
use infer_swap.Mock.State.{
  Server, StatusMode, normal, malformed, transport_error, unreliable, null_active, negative_active,
  ready_not_resident, missing_active, LoadFailMode, load_ok, fail_not_resident, fail_unknown,
  new_server, Setting, initial_loading, status_mode_to, load_failure_to, unload_failure_to,
  prepare_failure_to, alive_to, with_setting, force_ready, force_failed, set_wire, status_locked,
  busy_locked, or_injected, is_failed,
}
use infer_swap.Mock.Handlers.{
  Answer, start_load, run_load, load_done, load_result, start_unload, unloaded, run_unload,
  unload_done, unload_result, start_inference, finish_inference, start_prepare, end_prepare,
}
use infer_swap.Mock.Control.{
  Event, mock_run, handle_status, status_body, read_status, Written, closed,
}
use infer_swap.Mock.Closed.{Allowed, IsClosed, all_allowed, mock_run-kept}

-- The mock's status is one that the validation accepts, and its error has a code.
abbrev pub is_honest : Server → Bool
is_honest s = validate_status (status_locked s) && is_coded s.last_error

-- A state that SetWire may set without a lie.
abbrev pub honest_wire : Allowed
honest_wire st res n =
    validate_status (record { state = st; residency = res; active_requests = n; last_error = none })

abbrev IsHonest : Server → Type 0
IsHonest s = is_honest s ≡ true

load_result-IsHonest : (f : LoadFailMode) (s : Server) → IsHonest (load_result f s)
unfolding load_result validate_status status_locked
load_result-IsHonest load_ok s = refl
load_result-IsHonest fail_not_resident s = refl
load_result-IsHonest fail_unknown s = refl

load_done-IsHonest : (o : Option LoadFailMode) (s : Server) → IsHonest s → IsHonest (load_done o s)
unfolding load_done
load_done-IsHonest none s h = h
load_done-IsHonest (some f) s h = load_result-IsHonest f _

unload_result-IsHonest : (fail : Bool) (s : Server) → IsHonest (unload_result fail s)
unfolding unload_result unloaded validate_status status_locked
unload_result-IsHonest fail s =
    if-cases IsHonest (busy_locked s) (λ _. refl)
      (λ _. if-cases IsHonest fail (λ _. refl) (λ _. refl))

unload_done-IsHonest : (o : Option Bool) (s : Server) → IsHonest s → IsHonest (unload_done o s)
unfolding unload_done
unload_done-IsHonest none s h = h
unload_done-IsHonest (some fail) s h = unload_result-IsHonest fail (record s {
  counts = record s.counts { unload_ends = s.counts.unload_ends + 1 };
  unload_ch = none;
})

set-IsHonest : (x : Setting) (s : Server) → IsHonest s → IsHonest (with_setting x s)
unfolding with_setting validate_status status_locked
set-IsHonest initial_loading s h = ground (arith, h)
set-IsHonest (status_mode_to m) s h = h
set-IsHonest (load_failure_to m) s h = h
set-IsHonest (unload_failure_to b) s h = h
set-IsHonest (prepare_failure_to b) s h = h
set-IsHonest (alive_to b) s h = h

end_prepare-IsHonest :
    (fail already : Bool) (s : Server) → IsHonest s → IsHonest (end_prepare fail already s).0
unfolding end_prepare unloaded validate_status status_locked
end_prepare-IsHonest true already s h = h
end_prepare-IsHonest false true s h = h
end_prepare-IsHonest false false s h = refl

ready-wire_unloaded : (st : WireState) → is_wire_ready st ≡ true → is_wire_unloaded st ≡ false
ready-wire_unloaded WireState.ready h = refl
ready-wire_unloaded WireState.unloaded h = absurd cc
ready-wire_unloaded WireState.loading h = refl
ready-wire_unloaded WireState.unloading h = refl
ready-wire_unloaded WireState.failed h = refl

or_injected-coded : (o : Option LastError) → is_coded o ≡ true → is_coded (or_injected o) ≡ true
or_injected-coded none h = refl
or_injected-coded (some e) h = h

start_inference-IsHonest : (s : Server) → IsHonest s → IsHonest (start_inference s).0
unfolding start_inference validate_status status_locked
start_inference-IsHonest s h =
    if-cases (λ (x : Server × Option Answer). IsHonest x.0)
      (not (is_wire_ready s.model_state) || not (is_resident s.residency)) (λ _. h)
      (λ ready. ground (arith, h, ready, ready-wire_unloaded s.model_state (ground (arith, ready))))

finish_inference-IsHonest : (s : Server) → IsHonest s → IsHonest (finish_inference s)
unfolding finish_inference validate_status status_locked
finish_inference-IsHonest s h =
    if-cases IsHonest (ltb 0 s.running) (λ _. ground (arith, h)) (λ _. h)

set_wire-IsHonest :
    (st : WireState) (res : Residency) (n : ℕ) (s : Server)
    → honest_wire st res n ≡ true
    → IsHonest s
    → IsHonest (set_wire st res n s)
unfolding set_wire validate_status status_locked
set_wire-IsHonest st res n s ok_wire h =
    let coded : is_coded s.last_error ≡ true = ground (arith, h) in
    elim (Bool-cases (is_failed st)) [
      | inl failed ↦ ground (arith, ok_wire, failed, or_injected-coded s.last_error coded)
      | inr other ↦ ground (arith, ok_wire, other)
    ]

start_load-IsHonest : (s : Server) → IsHonest s → IsHonest (start_load s)
unfolding start_load validate_status status_locked
start_load-IsHonest s h = ground (arith, h)

start_unload-IsHonest : (s : Server) → IsHonest s → IsHonest (start_unload s)
unfolding start_unload validate_status status_locked
start_unload-IsHonest s h = ground (arith, h)

handle_status-IsHonest : (s : Server) → IsHonest s → IsHonest (handle_status s).0
unfolding handle_status
handle_status-IsHonest s h =
    if-cases (λ (x : Server × Written). IsHonest x.0) (not s.endpoint_alive) (λ _. h) (λ _. h)

IsHonest-IsClosed : IsClosed honest_wire IsHonest
unfolding run_load run_unload force_ready force_failed unloaded start_prepare validate_status
    status_locked
IsHonest-IsClosed = record {
  set = set-IsHonest;
  ready = λ s h. refl;
  cleared = λ s h. refl;
  failed = λ res s h. refl;
  wired = set_wire-IsHonest;
  load_started = λ s e h. start_load-IsHonest s h;
  load_ended = λ s h. load_done-IsHonest s.load_ch s h;
  unload_started = λ s e h. start_unload-IsHonest s h;
  unload_ended = λ s h. unload_done-IsHonest s.unload_ch s h;
  inferred = start_inference-IsHonest;
  infer_ended = finish_inference-IsHonest;
  prepared = λ s h. h;
  prepare_ended = end_prepare-IsHonest;
  observed = handle_status-IsHonest;
}

new-IsHonest : IsHonest new_server
unfolding new_server validate_status status_locked
new-IsHonest = refl

abbrev pub is_normal : StatusMode → Bool
is_normal normal = true
is_normal _ = false

-- A status in the normal mode is read back, and in no other mode is any status read.
read_status-status_body :
    (m : StatusMode) (st : Status)
    → validate_status st ≡ true
    → st.active_requests < 2 ^ 63
    → is_coded st.last_error ≡ true
    → read_status (status_body m st) ≡ (if is_normal m then some st else none)
unfolding read_status status_body
read_status-status_body normal st v b c = ground (arith, parse_status-write_status st v b c)
read_status-status_body malformed st v b c = refl
read_status-status_body transport_error st v b c = refl
read_status-status_body unreliable st v b c = refl
read_status-status_body null_active st v b c = refl
read_status-status_body negative_active st v b c = refl
read_status-status_body ready_not_resident st v b c = refl
read_status-status_body missing_active st v b c = refl

is_validated : (s : Server) → IsHonest s → validate_status (status_locked s) ≡ true
is_validated s h = ground (arith, h)

locked_small : (s : Server) → s.active < 2 ^ 63 → (status_locked s).active_requests < 2 ^ 63
unfolding status_locked
locked_small s h = h

locked_coded : (s : Server) → IsHonest s → is_coded (status_locked s).last_error ≡ true
unfolding status_locked
locked_coded s h = ground (arith, h)

closed_read : read_status closed ≡ none
unfolding read_status
closed_read = refl

pub read_status-handle_status :
    (s : Server)
    → IsHonest s
    → s.active < 2 ^ 63
    → read_status (handle_status s).1
      ≡ (if s.endpoint_alive && is_normal s.status_mode then some (status_locked s) else none)
unfolding handle_status
read_status-handle_status s h small = elim (Bool-cases s.endpoint_alive) [
  | inl alive ↦ ground (
    arith,
    alive,
    read_status-status_body s.status_mode (status_locked s) (is_validated s h)
        (locked_small s small) (locked_coded s h),
  )
  | inr dead ↦ ground (arith, dead, closed_read)
]

-- After any steps in which SetWire sets no state that the validation rejects, a client that asks the
-- mock for its status reads exactly the status that the mock is in, if its endpoint is alive and its
-- mode is the normal one, and reads no status otherwise. The count of active requests is an int64.
pub read_status-mock_run :
    (es : List Event)
    → all_allowed honest_wire es ≡ true
    → (mock_run es new_server).active < 2 ^ 63
    → let s = mock_run es new_server in
      read_status (handle_status s).1
      ≡ (if s.endpoint_alive && is_normal s.status_mode then some (status_locked s) else none)
read_status-mock_run es h small =
    read_status-handle_status (mock_run es new_server)
      (mock_run-kept IsHonest-IsClosed es new_server h new-IsHonest) small
