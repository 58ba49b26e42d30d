-- ===== src/Mock/Served.antt =====
-- internal/runtime/client.go against internal/runtime/mock: doStop and doEnsure with a mock that answers.
use infer_swap.Common.{
  ℕ, ◌<◌, ◌^◌, Bool, true, false, ◌&&◌, ◌||◌, ◌≡◌, refl, ap, sym, ◌∙◌, Option, none, some, List, [],
  ◌∷◌, if◌then◌else◌, arith,
}
use infer_swap.Wire.{Status, is_wire_ready}
use infer_swap.Client.Types.{Answer, status, error, refused, timed_out, Outcome, done}
use infer_swap.Client.Release.{do_stop, is_released}
use infer_swap.Client.Release
use infer_swap.Client.Ensure
use infer_swap.Client.Ensure.{Poll, do_ensure}
use infer_swap.Client.Evidence.{
  shows_released, do_stop-released, shows_ready, poll_shows_ready, do_ensure-ready,
}
use infer_swap.Mock.State.{Server, status_locked}
use infer_swap.Mock.Handlers
use infer_swap.Mock.Handlers.{ok_status, ok_prepared, fault, waits, write_load, write_unload}
use infer_swap.Mock.Control.{handle_status, read_status}
use infer_swap.Mock.Honest.{is_honest, is_normal, read_status-handle_status}

-- What the client makes of a status of the mock.
abbrev pub status_answer : Option Status → Answer
status_answer (some st) = status st
status_answer none = error refused

abbrev pub asked : Server → Answer
asked s = status_answer (read_status (handle_status s).1)

-- What it makes of the answer to a control call, which may have timed out.
abbrev pub control_answer : Bool → Handlers.Answer → Answer
control_answer true a = error timed_out
control_answer false (ok_status st) = status st
control_answer false _ = error refused

-- The mock as doStop meets it: at its first status, at the end of the unload, and at the status after a
-- timeout.
pub record Stopping : Type 0 where
  pub first : Server
  pub posted : Server
  pub late : Bool
  pub observed : Server

abbrev pub stop_remote : Stopping → Release.Remote
stop_remote x = record {
  first = asked x.first;
  posted = control_answer x.late (write_unload x.posted);
  observed = asked x.observed;
}

-- A mock that tells what it is, with a count that is an int64.
abbrev pub IsFrank : Server → Type 0
IsFrank s = (is_honest s ≡ true) × (s.active < 2 ^ 63)

abbrev pub is_gone : Server → Bool
is_gone s = is_released (status_locked s)

shows_released-status_answer :
    (b : Bool) (st : Status)
    → shows_released (status_answer (if b then some st else none)) ≡ true
    → is_released st ≡ true
shows_released-status_answer true st h = h
shows_released-status_answer false st h = absurd cc

asked-is_gone : (s : Server) → IsFrank s → shows_released (asked s) ≡ true → is_gone s ≡ true
asked-is_gone s (honest, small) h =
    shows_released-status_answer (s.endpoint_alive && is_normal s.status_mode) (status_locked s) (
      ap (λ x. shows_released (status_answer x)) (sym (read_status-handle_status s honest small))
      ∙ h)

or_mono :
    (a b : Bool) {c d : Bool}
    → (a ≡ true → c ≡ true)
    → (b ≡ true → d ≡ true)
    → (a || b) ≡ true
    → (c || d) ≡ true
or_mono true b f g h = ground (arith, f refl)
or_mono false b f g h = ground (arith, g h)

write_unload-is_gone :
    (late : Bool) (s : Server)
    → shows_released (control_answer late (write_unload s)) ≡ true
    → is_gone s ≡ true
unfolding write_unload
write_unload-is_gone true s h = absurd cc
write_unload-is_gone false s h = ground (arith, h)

-- When doStop succeeds against a mock, the mock was unloaded, not resident and without requests when
-- its first status was read, at the end of the unload, or when its status was read after a timeout.
pub do_stop-is_gone :
    (x : Stopping)
    → IsFrank x.first
    → IsFrank x.observed
    → (do_stop (stop_remote x)).0 ≡ done
    → (is_gone x.first || is_gone x.posted || is_gone x.observed) ≡ true
do_stop-is_gone x f o h =
    or_mono _ _ (or_mono _ _ (asked-is_gone x.first f) (write_unload-is_gone x.late x.posted))
      (asked-is_gone x.observed o) (do_stop-released (stop_remote x) h)

-- The mock as doEnsure meets it: at its first status, after the prepare command, at the end of the load,
-- at the status after a timeout, and in the rounds of waitReady with their clocks and contexts.
pub record Loading : Type 0 where
  pub first : Server
  pub prepared : Outcome
  pub second : Server
  pub now : ℕ
  pub gate : Outcome
  pub posted_at : ℕ
  pub posted : Server
  pub late : Bool
  pub observed : Server
  pub rounds : List (Server × Poll)

abbrev pub polls_of : List (Server × Poll) → List Poll
polls_of [] = []
polls_of ((s, p) ∷ ps) = record p { answer = asked s } ∷ polls_of ps

abbrev pub load_remote : Loading → Ensure.Remote
load_remote y = record {
  first = asked y.first;
  prepared = y.prepared;
  second = asked y.second;
  now = y.now;
  gate = y.gate;
  posted_at = y.posted_at;
  posted = control_answer y.late (write_load y.posted);
  observed = asked y.observed;
  polls = polls_of y.rounds;
}

abbrev pub is_up : Server → Bool
is_up s = is_wire_ready s.model_state

abbrev pub any_up : List (Server × Poll) → Bool
any_up [] = false
any_up ((s, p) ∷ ps) = is_up s || any_up ps

abbrev pub AllFrank : List (Server × Poll) → Type 0
AllFrank [] = Unit {0}
AllFrank ((s, p) ∷ ps) = IsFrank s × AllFrank ps

shows_ready-status_answer :
    (b : Bool) (st : Status)
    → shows_ready (status_answer (if b then some st else none)) ≡ true
    → is_wire_ready st.state ≡ true
shows_ready-status_answer true st h = h
shows_ready-status_answer false st h = absurd cc

locked_up : (s : Server) → is_wire_ready (status_locked s).state ≡ true → is_up s ≡ true
unfolding status_locked
locked_up s h = h

asked-is_up : (s : Server) → IsFrank s → shows_ready (asked s) ≡ true → is_up s ≡ true
asked-is_up s (honest, small) h = locked_up s (
    shows_ready-status_answer (s.endpoint_alive && is_normal s.status_mode) (status_locked s) (
      ap (λ x. shows_ready (status_answer x)) (sym (read_status-handle_status s honest small)) ∙ h))

write_load-is_up :
    (late : Bool) (s : Server)
    → shows_ready (control_answer late (write_load s)) ≡ true
    → is_up s ≡ true
unfolding write_load status_locked
write_load-is_up true s h = absurd cc
write_load-is_up false s h = ground (arith, h)

polls_of-any_up :
    (ps : List (Server × Poll))
    → AllFrank ps
    → poll_shows_ready (polls_of ps) ≡ true
    → any_up ps ≡ true
polls_of-any_up [] f h = absurd cc
polls_of-any_up ((s, p) ∷ ps) (f, fs) h = ground (arith, h, asked-is_up s f, polls_of-any_up ps fs)

-- When doEnsure succeeds against a mock, the mock was ready when one of its statuses was read, or at the
-- end of the load.
pub do_ensure-is_up :
    (y : Loading) (budget : ℕ)
    → IsFrank y.first
    → IsFrank y.second
    → IsFrank y.observed
    → AllFrank y.rounds
    → (do_ensure (load_remote y) budget).0 ≡ done
    → (is_up y.first || is_up y.second || is_up y.posted || is_up y.observed || any_up y.rounds)
      ≡ true
do_ensure-is_up y budget f s o ps h =
    or_mono _ _
      (or_mono _ _
        (or_mono _ _ (or_mono _ _ (asked-is_up y.first f) (asked-is_up y.second s))
          (write_load-is_up y.late y.posted))
        (asked-is_up y.observed o))
      (polls_of-any_up y.rounds ps) (do_ensure-ready (load_remote y) budget h)
