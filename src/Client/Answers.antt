-- ===== src/Client/Answers.antt =====
-- Who is answered, and how.
use infer_swap.Common.{ℕ, false, ◌≡◌, ◌≢◌, none, [], ◌∷◌, ◌++◌, arith, next_u64}
use infer_swap.Wire.{State, WireState, Status, stale}
use infer_swap.Client.Types.{
  Client, status, Outcome, done, failed, ApplyCmd, answer, ack, start_load,
}
use infer_swap.Client.Loop.{reconcile, apply, ready, op_done, stop, step, answers}
use infer_swap.Client.Inv.{IsSound}

-- The state that a finished load or unload leads to.
abbrev pub after_load : Outcome → State
after_load done = State.ready
after_load (failed e) = State.failed

abbrev pub after_stop : Outcome → State
after_stop done = State.stopped
after_stop (failed e) = State.failed

module _ (c : Client) (h : IsSound c) (runs : c.halted ≡ false) where
  -- In a sound client whose loop runs, the result of the load in flight goes to every caller that
  -- waits, in the order of their calls; nobody waits any longer, no load is in flight, and the state
  -- is `ready` or `failed`.
  pub op_done_answers :
      (o : Outcome)
      → c.op ≢ none
      → let t = step (op_done o) c in
        (t.sent ≡ c.sent ++ answers o c.waiters)
        × (t.waiters ≡ [])
        × (t.op ≡ none)
        × (t.in_flight ≡ false)
        × (t.state ≡ after_load o)
  unfolding step
  op_done_answers o busy = ground arith

  -- In a sound client whose loop runs, a stop cancels the load in flight and gives its own outcome
  -- to the callers that wait for that load, then to the caller of Stop. So after a successful unload the callers of EnsureReady are
  -- told that the model is ready, though the state is `stopped`.
  pub stop_answers :
      (call : ℕ) (o : Outcome)
      → let t = step (stop call o) c in
        (t.sent ≡ (c.sent ++ answers o c.waiters) ++ answer call o ∷ [])
        × (t.waiters ≡ [])
        × (t.op ≡ none)
        × (t.state ≡ after_stop o)
  unfolding step
  stop_answers call o = ground arith

  -- In a sound client whose loop runs, without a load in flight, a recovery command of the current
  -- generation is stale once it has been applied: applied again it changes nothing and is
  -- acknowledged as stale.
  pub apply_once :
      (cmd : ApplyCmd)
      → c.op ≡ none
      → cmd.gen ≡ c.gen
      → let t = step (apply cmd) c in
        step (apply cmd) t ≡ record t { sent = t.sent ++ ack stale ∷ [] }
  unfolding step
  apply_once cmd free same = ground arith

  -- In a sound client whose loop runs, a reconcile that finds the model unloaded while a load is in
  -- flight lets the next EnsureReady start a second load beside it.
  pub reconcile_second_load :
      (first second : ℕ) (st : Status)
      → c.op ≢ none
      → st.state ≡ WireState.unloaded
      → let t = step (ready second) (step (reconcile first (status st)) c) in
        t.sent ≡ (c.sent ++ answer first done ∷ []) ++ start_load (next_u64 c.gen) ∷ []
  unfolding step
  reconcile_second_load first second st busy gone = ground arith
