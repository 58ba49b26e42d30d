-- ===== src/Mock/Closed.antt =====
-- internal/runtime/mock: a property that the changes of the mock's state keep is kept by its steps.
use infer_swap.Common.{
  ℕ, Bool, true, false, not, ◌&&◌, ◌≡◌, refl, Option, none, some, List, [], ◌∷◌, arith, if-cases,
}
use infer_swap.Wire.{WireState, Residency, is_not_resident, is_wire_unloaded}
use infer_swap.Mock.State.{
  Server, Setting, with_setting, force_ready, force_unloaded, force_failed, set_wire, busy_locked,
  is_failed,
}
use infer_swap.Mock.Handlers.{
  Control, Answer, handle_load, load_in, join_load, start_load, run_load, handle_unload, unload_now,
  start_unload, unloaded, run_unload, start_inference, finish_inference, start_prepare, end_prepare,
  is_some, is_loading, is_clear,
}
use infer_swap.Mock.Control.{
  Event, setting, forced_ready, forced_unloaded, forced_failed, wire, load, unload, load_end,
  unload_end, infer, infer_end, prepare, status, prepare_end, mock_step, mock_run, handle_status,
}

-- The states that SetWire may be called with.
abbrev pub Allowed : Type 0
Allowed = WireState → Residency → ℕ → Bool

abbrev pub is_allowed : Allowed → Event → Bool
is_allowed ok_wire (wire st res n) = ok_wire st res n
is_allowed ok_wire _ = true

abbrev pub all_allowed : Allowed → List Event → Bool
all_allowed ok_wire [] = true
all_allowed ok_wire (e ∷ es) = is_allowed ok_wire e && all_allowed ok_wire es

-- A load starts if none is in flight, an unload likewise, of a model that is neither loading nor busy.
pub record IsClosed (ok_wire : Allowed) (P : Server → Type 0) : Type 0 where
  pub set : (x : Setting) (s : Server) → P s → P (with_setting x s)
  pub ready : (s : Server) → P s → P (force_ready s)
  pub cleared : (s : Server) → P s → P (unloaded s)
  pub failed : (res : Residency) (s : Server) → P s → P (force_failed res s)
  pub wired :
      (st : WireState) (res : Residency) (n : ℕ) (s : Server)
      → ok_wire st res n ≡ true
      → P s
      → P (set_wire st res n s)
  pub load_started : (s : Server) → s.load_ch ≡ none → P s → P (start_load s)
  pub load_ended : (s : Server) → P s → P (run_load s)
  pub unload_started : (s : Server) → s.unload_ch ≡ none → P s → P (start_unload s)
  pub unload_ended : (s : Server) → P s → P (run_unload s)
  pub inferred : (s : Server) → P s → P (start_inference s).0
  pub infer_ended : (s : Server) → P s → P (finish_inference s)
  pub prepared : (s : Server) → P s → P (start_prepare s)
  pub prepare_ended : (fail already : Bool) (s : Server) → P s → P (end_prepare fail already s).0
  pub observed : (s : Server) → P s → P (handle_status s).0

no_channel : {A : Type 0} (o : Option A) → is_some o ≡ false → o ≡ none
no_channel none h = refl
no_channel (some a) h = absurd cc

module _ {ok_wire : Allowed} {P : Server → Type 0} (c : IsClosed ok_wire P) where
  forced_clear : (s : Server) → P s → P (force_unloaded s)
  unfolding force_unloaded unloaded
  forced_clear s p = c.cleared s p

  join_load-kept : (s : Server) → P s → P (join_load s).0
  unfolding join_load
  join_load-kept s p =
      if-cases P (is_some s.load_ch) (λ _. p)
        (λ idle. c.load_started s (no_channel s.load_ch idle) p)

  load_in-kept : (st : WireState) (s : Server) → P s → P (load_in st s).0
  unfolding load_in
  load_in-kept WireState.ready s p = p
  load_in-kept WireState.unloading s p = p
  load_in-kept WireState.failed s p =
      if-cases (λ (x : Server × Answer). P x.0) (is_not_resident s.residency)
        (λ _. join_load-kept s p) (λ _. p)
  load_in-kept WireState.loading s p = join_load-kept s p
  load_in-kept WireState.unloaded s p = join_load-kept s p

  handle_load-kept : (q : Control) (s : Server) → P s → P (handle_load q s).0
  unfolding handle_load
  handle_load-kept q s p =
      if-cases (λ (x : Server × Answer). P x.0) (not q.is_post) (λ _. p)
        (λ _.
          if-cases (λ (x : Server × Answer). P x.0) (not q.empty_object) (λ _. p)
            (λ _. load_in-kept s.model_state s p))

  unload_now-kept : (s : Server) → P s → P (unload_now s).0
  unfolding unload_now
  unload_now-kept s p =
      let Q : Server × Answer → Type 0 = λ x. P x.0 in
      if-cases Q (is_loading s.model_state) (λ _. p)
        (λ _.
          if-cases Q (busy_locked s) (λ _. p)
            (λ _.
              if-cases Q (is_wire_unloaded s.model_state && is_clear s) (λ _. p)
                (λ _.
                  if-cases Q (is_failed s.model_state && is_clear s) (λ _. c.cleared s p)
                    (λ _.
                      if-cases Q (is_some s.unload_ch) (λ _. p)
                        (λ idle. c.unload_started s (no_channel s.unload_ch idle) p)))))

  handle_unload-kept : (q : Control) (s : Server) → P s → P (handle_unload q s).0
  unfolding handle_unload
  handle_unload-kept q s p =
      if-cases (λ (x : Server × Answer). P x.0) (not q.is_post) (λ _. p)
        (λ _.
          if-cases (λ (x : Server × Answer). P x.0) (not q.empty_object) (λ _. p)
            (λ _. unload_now-kept s p))

  mock_step-kept : (e : Event) (s : Server) → is_allowed ok_wire e ≡ true → P s → P (mock_step e s)
  unfolding mock_step
  mock_step-kept (setting x) s h p = c.set x s p
  mock_step-kept forced_ready s h p = c.ready s p
  mock_step-kept forced_unloaded s h p = forced_clear s p
  mock_step-kept (forced_failed res) s h p = c.failed res s p
  mock_step-kept (wire st res n) s h p = c.wired st res n s h p
  mock_step-kept (load q) s h p = handle_load-kept q s p
  mock_step-kept (unload q) s h p = handle_unload-kept q s p
  mock_step-kept load_end s h p = c.load_ended s p
  mock_step-kept unload_end s h p = c.unload_ended s p
  mock_step-kept infer s h p = c.inferred s p
  mock_step-kept infer_end s h p = c.infer_ended s p
  mock_step-kept prepare s h p = c.prepared s p
  mock_step-kept status s h p = c.observed s p
  mock_step-kept (prepare_end fail already) s h p = c.prepare_ended fail already s p

  pub mock_run-kept :
      (es : List Event) (s : Server) → all_allowed ok_wire es ≡ true → P s → P (mock_run es s)
  mock_run-kept [] s h p = p
  mock_run-kept (e ∷ es) s h p =
      mock_run-kept es (mock_step e s) (ground (arith, h))
        (mock_step-kept e s (ground (arith, h)) p)
