-- ===== src/Client/Inv.antt =====
-- What holds of a client between two events of its loop.
use infer_swap.Common.{
  ◌||◌, Bool, true, false, not, ◌≡◌, none, some, List, [], ◌∷◌, arith, ◌⊎◌, ◌^◌, ◌<◌,
}
use infer_swap.Wire.{is_ready, is_starting}
use infer_swap.Client.Types.{Client}
use infer_swap.Client.Loop.{
  Event, parent_done, reconcile, apply, ready, op_done, stop, new_client, step, run, no_op,
  is_shutdown,
}

pub record IsSound (c : Client) : Type 0 where
  pub flight : (c.halted ≡ true) ⊎ (c.in_flight ≡ not (no_op c.op))
  pub current : (c.op ≡ none) ⊎ (c.op ≡ some c.gen)
  pub waited : (no_op c.op ≡ false) ⊎ (c.waiters ≡ [])
  pub busy : (c.halted || not (is_starting c.state) || not (no_op c.op)) ≡ true
  pub served : (not c.url_ok || not (is_ready c.state) || c.handler) ≡ true
  pub word : c.gen < 2 ^ 64
  pub ended : is_shutdown c.state ≡ c.halted

new_client-IsSound : (url_ok : Bool) → IsSound (new_client url_ok)
unfolding new_client
new_client-IsSound url_ok = ground arith

step-IsSound : (e : Event) (c : Client) → IsSound c → IsSound (step e c)
unfolding step
step-IsSound parent_done c h = ground arith
step-IsSound (reconcile call fetched) c h = ground arith
step-IsSound (apply cmd) c h = ground arith
step-IsSound (ready call) c h = ground arith
step-IsSound (op_done o) c h = ground arith
step-IsSound (stop call o) c h = ground arith

run_from-IsSound : (es : List Event) (c : Client) → IsSound c → IsSound (run es c)
unfolding run
run_from-IsSound [] c h = h
run_from-IsSound (e ∷ es) c h = run_from-IsSound es (step e c) (step-IsSound e c h)

-- After any sequence of events: while the loop runs `inflight` says whether a load is in flight, and
-- such a load carries the current generation, a uint64; without one nobody waits, and the state of
-- a loop that runs is not `starting`; a ready client whose base URL parses has its proxy; and the
-- loop has ended exactly if the state is `shutdown`.
pub run-IsSound : (url_ok : Bool) (es : List Event) → IsSound (run es (new_client url_ok))
run-IsSound url_ok es = run_from-IsSound es (new_client url_ok) (new_client-IsSound url_ok)
