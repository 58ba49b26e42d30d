-- ===== src/Sched/Types.antt =====
-- internal/router/scheduler/scheduler.go and errors.go, and the state of fifo.go: requests, events,
-- errors, what the scheduler reads of its surroundings, and what it does to them.
--
-- A model id is a number, in the order of the ids as strings; 0 is the empty string. A time is a
-- number of nanoseconds.
use infer_swap.Common.{ℕ, Bool, List, Option, none, some}
use infer_swap.Wire.{State, Status, RecoveryClass, StatusErrKind, ApplyCode}

pub data Error : Type 0 where
  model_not_found queue_full queue_timeout drain_timeout unload_blocked : Error
  shutdown load_failed resources not_booted lifecycle_pending : Error

-- A Go error: one whose chain holds an `*Error`, or any other.
pub data Fault : Type 0 where
  sched : Error → Fault
  foreign : ℕ → Fault

-- `errors.As(err, &se)` for an `*Error`.
abbrev pub as_error : Fault → Option Error
as_error (sched e) = some e
as_error (foreign n) = none

pub record HandlerReq : Type 0 where
  pub id : ℕ
  pub model : ℕ
  pub has_admit : Bool

pub record StatusEvent : Type 0 where
  pub model_id : ℕ
  pub status : Status
  pub err : Option Fault
  pub gen : ℕ

pub data RecoverMode : Type 0 where
  drop current late : RecoverMode

pub record ProbeNote : Type 0 where
  pub token : ℕ
  pub model : ℕ
  pub mode : RecoverMode
  pub class : RecoveryClass
  pub kind : StatusErrKind
  pub ack : ApplyCode
  pub active : ℕ
  pub proof_gen : ℕ
  pub applied : Bool

pub record RecoveryFacts : Type 0 where
  pub states : List (ℕ × State)
  pub markers : ℕ → Bool
  pub in_flight : ℕ → Bool

pub data Decision : Type 0 where
  evicts : List ℕ → Decision
  refused : Fault → Decision

-- `Swapper`, with or without the optional `Decider`.
pub data Planner : Type 0 where
  no_planner : Planner
  swapper : (ℕ → List ℕ → List ℕ) → Planner
  decider : (ℕ → List ℕ → List ℕ) → (ℕ → List ℕ → Decision) → Planner

-- What one handler reads: the runtimes' states, the planner, the clock, and how the request's
-- channels take what is sent.
pub record Env : Type 0 where
  pub model_state : ℕ → Option State
  pub running_models : List (ℕ × State)
  pub planner : Planner
  pub recovery : Option RecoveryFacts
  pub accepts : HandlerReq → Bool
  pub ctx_done : HandlerReq → Bool
  pub admit_takes : HandlerReq → Bool
  pub now : ℕ

-- The calls that the scheduler makes, and what it sends on a request's channels.
pub data Effect : Type 0 where
  grant_error : HandlerReq → Fault → Effect
  grant_serve : HandlerReq → ℕ → Bool → Effect
  start_unload : List ℕ → ℕ → Effect
  remind : ℕ → Effect
  start_load : ℕ → Effect
  begin_probe : ℕ → ℕ → Effect
  admit_reply : HandlerReq → Option Fault → Effect
  proxy_reply : ℕ → Bool → Effect

pub data Phase : Type 0 where
  idle unloading loading recover sample : Phase

-- `FIFO`. `out` is the trace of the effects, the latest last.
pub record Fifo : Type 0 where
  pub limits : ℕ → ℕ
  pub max_q : ℕ
  pub next_id : ℕ
  pub queued : List HandlerReq
  pub pending : ℕ → ℕ
  pub http_in : ℕ → ℕ
  pub backend : ℕ → ℕ
  pub unresolved : ℕ → ℕ
  pub dispatch_gen : ℕ → ℕ
  pub quiet_gen : ℕ → ℕ
  pub gate_closed : ℕ → Bool
  pub gate_at : ℕ → Option ℕ
  pub drain : ℕ
  pub drain_armed : Bool
  pub unload_fail : ℕ → Bool
  pub phase : Phase
  pub swap_target : ℕ
  pub swap_evict : List ℕ
  pub unload_began : Bool
  pub token_seq : ℕ
  pub recover_token : ℕ
  pub recover_owner : ℕ
  pub recover_model : ℕ
  pub status_order : List ℕ
  pub status_pos : ℕ
  pub need_sample : List ℕ
  pub checked : ℕ → Bool
  pub saw_resources : Bool
  pub saw_lifecycle : Bool
  pub skip_rest : Bool
  pub inflight_model : ℕ
  pub probe_started : ℕ → Option ℕ
  pub accept_late : ℕ → Bool
  pub seen : ℕ → ℕ → Bool
  pub out : List Effect
