-- ===== src/Client/Types.antt =====
-- internal/runtime/client.go and runtime.go: the state of a client and what its control calls answer.
use infer_swap.Common.{ℕ, Bool, Option, List}
use infer_swap.Wire.{State, Status, RecoveryClass, ApplyCode}

-- The error of a control call. A timeout is told apart (`isTimeout`, context.DeadlineExceeded).
pub data Err : Type 0 where
  timed_out : Err
  is_down : Err
  shut_down : Err
  prepare_unavailable : Err
  admission_required : Err
  canceled : Err
  refused : Err
  not_confirmed : Err
  reported : ℕ → Err

-- `fetchStatus`, and the POST of a load or an unload with its parsed body.
pub data Answer : Type 0 where
  status : Status → Answer
  error : Err → Answer

pub data Outcome : Type 0 where
  done : Outcome
  failed : Err → Outcome

pub data Reason : Type 0 where
  none shutdown load timeout load_failed ready unload unload_failed unloaded : Reason
  recovered recovered_unloaded recovered_remote_failed reconcile : Reason

pub record ApplyCmd : Type 0 where
  pub gen : ℕ
  pub class : RecoveryClass
  pub status : Status
  pub has_status : Bool

-- What the loop sends: an answer to a caller of EnsureReady, Stop or Reconcile, an ack, and a load
-- that it starts.
pub data Sent : Type 0 where
  answer : ℕ → Outcome → Sent
  ack : ApplyCode → Sent
  start_load : ℕ → Sent

-- The variables of `run` and the atomics. `op` is the generation of the load in flight; a waiter is
-- the number of its call. `sent` has the latest last. `url_ok`: the base URL parses.
pub record Client : Type 0 where
  pub url_ok : Bool
  pub state : State
  pub reason : Reason
  pub handler : Bool
  pub gen : ℕ
  pub in_flight : Bool
  pub remote : Option Status
  pub waiters : List ℕ
  pub op : Option ℕ
  pub halted : Bool
  pub sent : List Sent
