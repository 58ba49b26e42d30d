-- ===== src/Router/State.antt =====
-- internal/router/base.go and the model configuration of internal/config/config.go: what the router
-- keeps, and what it reads of the runtimes, the clocks and the callers.
use infer_swap.Common.{ℕ, Bool, Option, List, [], ◌∷◌, ◌==◌, if◌then◌else◌, slt, lookup}
use infer_swap.Wire.{State, Status}
use infer_swap.Resource.Admit.{Snapshot}
use infer_swap.Sched.Types.{HandlerReq, Fifo}

-- `config.Model`, as far as the budget reads it: the bytes are int64.
pub record Model : Type 0 where
  pub load_peak : ℕ
  pub inference_peak : ℕ
  pub residual : ℕ

-- `LoadBound`: the larger of the two peaks.
unfoldable pub load_bound : Model → ℕ
load_bound m = if slt m.load_peak m.inference_peak then m.inference_peak else m.load_peak

-- The runtimes with their states, their loads in flight, the process clock and the router's, and
-- the channels of the callers, as one event of the loop finds them.
pub record World : Type 0 where
  pub states : List (ℕ × State)
  pub in_flight : ℕ → Bool
  pub wall_now : ℕ
  pub now : ℕ
  pub accepts : HandlerReq → Bool
  pub ctx_done : HandlerReq → Bool
  pub admit_takes : HandlerReq → Bool

-- `Router`. A map that is ranged over is a list of entries. Time 0 is the zero time.
pub record Router : Type 0 where
  pub models : List (ℕ × Model)
  pub margin : ℕ
  pub max_age : ℕ
  pub device : ℕ
  pub shutting : Bool
  pub snap : Snapshot
  pub boot_gpu : Bool
  pub reserved : ℕ → Option ℕ
  pub last_use : ℕ → ℕ
  pub loaded_at : ℕ → ℕ
  pub load_serial : ℕ
  pub residual_after : List (ℕ × ℕ)
  pub last_status : ℕ → Option Status
  pub schedule : Fifo

module _ {ℓ} {V : Type ℓ} where
  -- `delete(m, k)` and `m[k] = v` on a list of entries.
  abbrev pub without : ℕ → List (ℕ × V) → List (ℕ × V)
  without k [] = []
  without k ((j, v) ∷ m) = let rest = without k m in if j == k then rest else (j, v) ∷ rest

  abbrev pub with_entry : ℕ → V → List (ℕ × V) → List (ℕ × V)
  with_entry k v m = (k, v) ∷ without k m

unfoldable pub model_state : World → ℕ → Option State
model_state w id = lookup id w.states
