-- ===== src/Client/Loop.antt =====
-- internal/runtime/client.go: the cases of `run`, one event of its select at a time.
use infer_swap.Common.{
  ℕ, Bool, true, false, not, ◌&&◌, ◌||◌, Option, none, some, List, [], ◌∷◌, ◌++◌, ◌==◌,
  if◌then◌else◌, next_u64,
}
use infer_swap.Wire.{
  State, WireState, RecoveryClass, ready_idle, unloaded_idle, failed_not_resident_idle, ApplyCode,
  applied, busy, stale,
}
use infer_swap.Client.Types.{
  Client, Err, shut_down, Answer, status, error, Outcome, done, failed, Reason, ApplyCmd, Sent,
  answer, ack, start_load,
}
use infer_swap.Client.Ensure.{is_timeout}

unfoldable pub new_client : Bool → Client
new_client url_ok = record {
  url_ok = url_ok;
  state = State.unknown;
  reason = Reason.none;
  handler = false;
  gen = 0;
  in_flight = false;
  remote = none;
  waiters = [];
  op = none;
  halted = false;
  sent = [];
}

unfoldable pub set_state : State → Reason → Client → Client
set_state st why c = record c { state = st; reason = why }

-- Without a base URL that parses the handler stays as it was.
unfoldable pub install_proxy : Client → Client
install_proxy c = record c { handler = c.url_ok || c.handler }

unfoldable pub drop_proxy : Client → Client
drop_proxy c = record c { handler = false }

abbrev pub answers : Outcome → List ℕ → List Sent
answers o [] = []
answers o (w ∷ ws) = answer w o ∷ answers o ws

unfoldable pub notify : Outcome → Client → Client
notify o c = record c { sent = c.sent ++ answers o c.waiters; waiters = [] }

unfoldable pub reply : ℕ → Outcome → Client → Client
reply call o c = record c { sent = c.sent ++ answer call o ∷ [] }

unfoldable pub acknowledge : ApplyCode → Client → Client
acknowledge code c = record c { sent = c.sent ++ ack code ∷ [] }

unfoldable pub start_op : Client → Client
unfolding set_state
start_op c =
    let gen' = next_u64 c.gen in
    record (set_state State.starting Reason.load c) {
      gen = gen';
      op = some gen';
      in_flight = true;
      sent = c.sent ++ start_load gen' ∷ [];
    }

abbrev pub is_shutdown : State → Bool
is_shutdown State.shutdown = true
is_shutdown _ = false

abbrev pub no_op : Option ℕ → Bool
no_op none = true
no_op (some g) = false

-- The parent's context is done: the loop ends.
unfoldable pub on_parent_done : Client → Client
unfolding notify set_state drop_proxy
on_parent_done c =
    record (notify (failed shut_down) (drop_proxy (set_state State.shutdown Reason.shutdown c))) {
      halted = true;
    }

reconciled_to : WireState → Client → Client
unfolding install_proxy drop_proxy set_state
reconciled_to WireState.ready c = set_state State.ready Reason.reconcile (install_proxy c)
reconciled_to WireState.unloaded c = set_state State.stopped Reason.reconcile (drop_proxy c)
reconciled_to WireState.loading c = set_state State.starting Reason.reconcile c
reconciled_to WireState.unloading c = set_state State.stopping Reason.reconcile c
reconciled_to WireState.failed c = set_state State.failed Reason.reconcile (drop_proxy c)

unfoldable pub apply_reconcile : Answer → Client → Client
unfolding reconciled_to drop_proxy set_state
apply_reconcile (error e) c = drop_proxy (set_state State.unknown Reason.reconcile c)
apply_reconcile (status st) c = reconciled_to st.state c

abbrev pub is_starting : State → Bool
is_starting State.starting = true
is_starting _ = false

unfoldable pub on_reconcile : ℕ → Answer → Client → Client
unfolding reply start_op apply_reconcile
on_reconcile call fetched c =
    if is_shutdown c.state
    then reply call (failed shut_down) c
    else let c₁ = record c { gen = if no_op c.op then next_u64 c.gen else c.gen } in
      let c₂ = reply call done (apply_reconcile fetched c₁) in
      if is_starting c₂.state && no_op c₂.op then start_op c₂ else c₂

accept_class : RecoveryClass → Client → Client
unfolding install_proxy drop_proxy set_state
accept_class ready_idle c = set_state State.ready Reason.recovered (install_proxy c)
accept_class unloaded_idle c = set_state State.stopped Reason.recovered_unloaded (drop_proxy c)
accept_class failed_not_resident_idle c =
    set_state State.stopped Reason.recovered_remote_failed (drop_proxy c)
accept_class _ c = c

unfoldable pub accept_apply : ApplyCmd → Client → Client
unfolding accept_class
accept_apply cmd c =
    accept_class cmd.class
      (record c { remote = if cmd.has_status then some cmd.status else c.remote })

unfoldable pub on_apply : ApplyCmd → Client → Client
unfolding accept_apply acknowledge
on_apply cmd c =
    if is_shutdown c.state
    then acknowledge stale c
    else if not (no_op c.op)
    then acknowledge busy c
    else if not (cmd.gen == c.gen)
    then acknowledge stale c
    else let t = accept_apply cmd c in acknowledge applied (record t { gen = next_u64 t.gen })

unfoldable pub ready_in : State → ℕ → Client → Client
unfolding reply start_op
ready_in State.shutdown call c = reply call (failed shut_down) c
ready_in State.ready call c = reply call done c
ready_in State.starting call c = record c { waiters = c.waiters ++ call ∷ [] }
ready_in _ call c = start_op (record c { waiters = c.waiters ++ call ∷ [] })

unfoldable pub on_ready : ℕ → Client → Client
unfolding ready_in
on_ready call c = ready_in c.state call c

abbrev load_reason : Err → Reason
load_reason e = if is_timeout e then Reason.timeout else Reason.load_failed

abbrev unload_reason : Err → Reason
unload_reason e = if is_timeout e then Reason.timeout else Reason.unload_failed

finish_op : Outcome → Client → Client
unfolding notify set_state install_proxy drop_proxy
finish_op (failed e) c = notify (failed e) (set_state State.failed (load_reason e) (drop_proxy c))
finish_op done c = notify done (set_state State.ready Reason.ready (install_proxy c))

op_result : Option ℕ → Outcome → Client → Client
unfolding finish_op
op_result none o c = c
op_result (some gen) o c =
    let t = record c { op = none; in_flight = false } in if gen == c.gen then finish_op o t else t

-- The result of the load in flight, which carries that load's generation.
unfoldable pub on_op_done : Outcome → Client → Client
unfolding op_result
on_op_done o c = op_result c.op o c

finish_stop : ℕ → Outcome → Client → Client
unfolding notify set_state drop_proxy reply
finish_stop call (failed e) c =
    reply call (failed e)
      (notify (failed e) (set_state State.failed (unload_reason e) (drop_proxy c)))
finish_stop call done c =
    reply call done (notify done (set_state State.stopped Reason.unloaded (drop_proxy c)))

-- A load in flight is cancelled and waited for. `o` is what doStop returns.
unfoldable pub on_stop : ℕ → Outcome → Client → Client
unfolding finish_stop set_state reply
on_stop call o c =
    if is_shutdown c.state
    then reply call (failed shut_down) c
    else finish_stop call o (
        set_state State.stopping Reason.unload (record c {
          gen = next_u64 c.gen;
          op = none;
          in_flight = if no_op c.op then c.in_flight else false;
        }))

pub data Event : Type 0 where
  parent_done : Event
  reconcile : ℕ → Answer → Event
  apply : ApplyCmd → Event
  ready : ℕ → Event
  op_done : Outcome → Event
  stop : ℕ → Outcome → Event

unfoldable pub event_of : Event → Client → Client
event_of parent_done c = on_parent_done c
event_of (reconcile call fetched) c = on_reconcile call fetched c
event_of (apply cmd) c = on_apply cmd c
event_of (ready call) c = on_ready call c
event_of (op_done o) c = on_op_done o c
event_of (stop call o) c = on_stop call o c

-- A loop that has returned takes no more events.
unfoldable pub step : Event → Client → Client
unfolding event_of on_parent_done on_reconcile on_apply on_ready on_op_done on_stop
step e c = if c.halted then c else event_of e c

unfoldable pub run : List Event → Client → Client
run [] c = c
run (e ∷ es) c = run es (step e c)
