-- ===== src/Mock/Kept.antt =====
-- internal/runtime/mock: what every run of the mock keeps.
use infer_swap.Common.{
  ℕ, ◌+◌, Bool, true, false, not, ◌||◌, ◌≡◌, refl, ap, Option, none, some, List, [], ◌∷◌, ltb,
  arith, if-cases,
}
use infer_swap.Wire.{is_wire_ready, is_resident}
use infer_swap.Mock.State.{
  Server, LoadFailMode, load_ok, fail_not_resident, fail_unknown, new_server, Setting,
  initial_loading, status_mode_to, load_failure_to, unload_failure_to, prepare_failure_to, alive_to,
  with_setting, force_ready, force_failed, set_wire, busy_locked,
}
use infer_swap.Mock.Handlers.{
  start_load, run_load, load_done, load_result, start_unload, unloaded, run_unload, unload_done,
  unload_result, start_inference, finish_inference, start_prepare, end_prepare, Answer,
}
use infer_swap.Mock.Closed.{Allowed, IsClosed, is_allowed, all_allowed, mock_run-kept}
use infer_swap.Mock.Control.{Event, mock_run, handle_status, Written}

abbrev in_flight {ℓ} : {A : Type ℓ} → Option A → ℕ
in_flight none = 0
in_flight (some a) = 1

-- At most one load and one unload are in flight, and every start that has not ended is in flight.
abbrev pub IsTallied : Server → Type 0
IsTallied s =
    (s.counts.load_starts ≡ s.counts.load_ends + in_flight s.load_ch)
    × (s.counts.unload_starts ≡ s.counts.unload_ends + in_flight s.unload_ch)
    × (s.counts.infer_starts ≡ s.counts.infer_ends + s.running)

abbrev pub any_wire : Allowed
any_wire st res n = true

start_load-IsTallied : (s : Server) → s.load_ch ≡ none → IsTallied s → IsTallied (start_load s)
unfolding start_load
start_load-IsTallied s e t = (omega (arith, t.0, ap in_flight e), t.1, t.2)

load_result-IsTallied : (f : LoadFailMode) (s : Server) → IsTallied s → IsTallied (load_result f s)
unfolding load_result
load_result-IsTallied load_ok s t = t
load_result-IsTallied fail_not_resident s t = t
load_result-IsTallied fail_unknown s t = t

load_done-IsTallied :
    (o : Option LoadFailMode) (s : Server) → s.load_ch ≡ o → IsTallied s → IsTallied (load_done o s)
unfolding load_done
load_done-IsTallied none s e t = t
load_done-IsTallied (some f) s e t =
    load_result-IsTallied f _ (omega (arith, t.0, ap in_flight e), t.1, t.2)

unload_result-IsTallied :
    (fail : Bool) (s : Server) → IsTallied s → IsTallied (unload_result fail s)
unfolding unload_result unloaded
unload_result-IsTallied fail s t =
    if-cases IsTallied (busy_locked s) (λ _. t) (λ _. if-cases IsTallied fail (λ _. t) (λ _. t))

unload_done-IsTallied :
    (o : Option Bool) (s : Server) → s.unload_ch ≡ o → IsTallied s → IsTallied (unload_done o s)
unfolding unload_done
unload_done-IsTallied none s e t = t
unload_done-IsTallied (some fail) s e t =
    let s' : Server = record s {
      counts = record s.counts { unload_ends = s.counts.unload_ends + 1 };
      unload_ch = none;
    } in
    unload_result-IsTallied fail s' (t.0, omega (arith, t.1, ap in_flight e), t.2)

start_unload-IsTallied :
    (s : Server) → s.unload_ch ≡ none → IsTallied s → IsTallied (start_unload s)
unfolding start_unload
start_unload-IsTallied s e t = (t.0, omega (arith, t.1, ap in_flight e), t.2)

start_inference-IsTallied : (s : Server) → IsTallied s → IsTallied (start_inference s).0
unfolding start_inference
start_inference-IsTallied s t =
    if-cases (λ (x : Server × Option Answer). IsTallied x.0)
      (not (is_wire_ready s.model_state) || not (is_resident s.residency)) (λ _. t)
      (λ _. (t.0, t.1, omega (arith, t.2)))

finish_inference-IsTallied : (s : Server) → IsTallied s → IsTallied (finish_inference s)
unfolding finish_inference
finish_inference-IsTallied s t =
    if-cases IsTallied (ltb 0 s.running) (λ busy. (t.0, t.1, ground (arith, t.2))) (λ _. t)

set-IsTallied : (x : Setting) (s : Server) → IsTallied s → IsTallied (with_setting x s)
unfolding with_setting
set-IsTallied initial_loading s t = t
set-IsTallied (status_mode_to m) s t = t
set-IsTallied (load_failure_to m) s t = t
set-IsTallied (unload_failure_to b) s t = t
set-IsTallied (prepare_failure_to b) s t = t
set-IsTallied (alive_to b) s t = t

end_prepare-IsTallied :
    (fail already : Bool) (s : Server) → IsTallied s → IsTallied (end_prepare fail already s).0
unfolding end_prepare unloaded
end_prepare-IsTallied true already s t = t
end_prepare-IsTallied false true s t = t
end_prepare-IsTallied false false s t = t

handle_status-IsTallied : (s : Server) → IsTallied s → IsTallied (handle_status s).0
unfolding handle_status
handle_status-IsTallied s t =
    if-cases (λ (x : Server × Written). IsTallied x.0) (not s.endpoint_alive) (λ _. t) (λ _. t)

IsTallied-IsClosed : IsClosed any_wire IsTallied
unfolding run_load run_unload force_ready force_failed unloaded set_wire start_prepare
IsTallied-IsClosed = record {
  set = set-IsTallied;
  ready = λ s t. t;
  cleared = λ s t. t;
  failed = λ res s t. t;
  wired = λ st res n s h t. t;
  load_started = start_load-IsTallied;
  load_ended = λ s t. load_done-IsTallied s.load_ch s refl t;
  unload_started = start_unload-IsTallied;
  unload_ended = λ s t. unload_done-IsTallied s.unload_ch s refl t;
  inferred = start_inference-IsTallied;
  infer_ended = finish_inference-IsTallied;
  prepared = λ s t. t;
  prepare_ended = end_prepare-IsTallied;
  observed = handle_status-IsTallied;
}

any_wire-is_allowed : (e : Event) → is_allowed any_wire e ≡ true
any_wire-is_allowed e = ground arith

new-IsTallied : IsTallied new_server
unfolding new_server
new-IsTallied = (refl, refl, refl)

any_wire-all_allowed : (es : List Event) → all_allowed any_wire es ≡ true
any_wire-all_allowed [] = refl
any_wire-all_allowed (e ∷ es) = ground (arith, any_wire-is_allowed e, any_wire-all_allowed es)

-- After any steps, forced states included, the mock has at most one load and one unload in flight, and
-- each load, unload and inference that has started and not ended is one that is in flight.
pub mock_run-IsTallied : (es : List Event) → IsTallied (mock_run es new_server)
mock_run-IsTallied es =
    mock_run-kept IsTallied-IsClosed es new_server (any_wire-all_allowed es) new-IsTallied
