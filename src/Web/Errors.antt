-- ===== src/Web/Errors.antt =====
-- internal/proxy/error.go and writeErr of internal/router/base.go: how an error is answered. The body is
-- its three fields; `src` is constant.
use infer_swap.Common.{ℕ, Bool, true, ◌≡◌, refl, ap, Option, none, some, String, ◌==◌, arith}
use infer_swap.Sched.Types.{
  Error, model_not_found, queue_full, queue_timeout, drain_timeout, unload_blocked, shutdown,
  load_failed, resources, not_booted, lifecycle_pending,
}

-- `ExtractError`, and the fields of `scheduler.Error`.
pub record Fields : Type 0 where
  pub status : ℕ
  pub code : String
  pub msg : String

abbrev fields : ℕ → String → String → Fields
fields status code msg = record { status = status; code = code; msg = msg }

unfoldable pub fields_of : Error → Fields
fields_of model_not_found = fields 404 "NOT_FOUND" "model not found"
fields_of queue_full = fields 429 "QUEUE_FULL" "queue is full"
fields_of queue_timeout = fields 504 "QUEUE_TIMEOUT" "queue timeout"
fields_of drain_timeout = fields 504 "DRAIN_TIMEOUT" "drain timed out"
fields_of unload_blocked = fields 502 "UNLOAD_FAILED" "unload failed; next load blocked"
fields_of shutdown = fields 503 "SHUTDOWN" "router is shutting down"
fields_of load_failed = fields 502 "LOAD_FAILED" "load failed"
fields_of resources = fields 503 "RESOURCES" "gpu budget is not available"
fields_of not_booted = fields 503 "NOT_READY" "gpu observation is not ready"
fields_of lifecycle_pending = fields 503 "LIFECYCLE_PENDING" "model lifecycle is still pending"

-- An error: its text, and what errors.As finds in its chain.
pub record Chain : Type 0 where
  pub text : String
  pub sched : Option Error
  pub extract : Option Fields

pub record Answer : Type 0 where
  pub retry_after : Bool
  pub fields : Fields

abbrev backend : Chain → Fields
backend e = fields 502 "BACKEND" e.text

abbrev sched_or : Option Error → Fields → Fields
sched_or none other = other
sched_or (some e) other = fields_of e

abbrev extract_or : Option Fields → Fields → Fields
extract_or none other = other
extract_or (some e) other = e

abbrev answered : Fields → Answer
answered f = record { retry_after = f.status == 429; fields = f }

-- writeErr of the router.
unfoldable pub write_err : Chain → Answer
unfolding fields_of
write_err e = answered (sched_or e.sched (backend e))

-- proxy.WriteError.
unfoldable pub write_error : Chain → Answer
unfolding fields_of
write_error e = answered (extract_or e.extract (sched_or e.sched (backend e)))

retry_queue_full :
    (o : Option Error) (other : Fields)
    → other.status ≡ 502
    → ((sched_or o other).status == 429) ≡ true
    → o ≡ some queue_full
unfolding fields_of
retry_queue_full none other s h = ground (arith, s, h)
retry_queue_full (some model_not_found) other s h = absurd cc
retry_queue_full (some queue_full) other s h = refl
retry_queue_full (some queue_timeout) other s h = absurd cc
retry_queue_full (some drain_timeout) other s h = absurd cc
retry_queue_full (some unload_blocked) other s h = absurd cc
retry_queue_full (some shutdown) other s h = absurd cc
retry_queue_full (some load_failed) other s h = absurd cc
retry_queue_full (some resources) other s h = absurd cc
retry_queue_full (some not_booted) other s h = absurd cc
retry_queue_full (some lifecycle_pending) other s h = absurd cc

-- The two writers of errors agree on every error that is not about the extraction of a request. Among
-- the scheduler's errors the full queue alone is answered with Retry-After.
pub write_err-write_error :
    (e : Chain)
    → e.extract ≡ none
    → (write_error e ≡ write_err e) × ((write_err e).retry_after ≡ true → e.sched ≡ some queue_full)
unfolding write_error write_err fields_of
write_err-write_error e h = (
  ap (λ o. answered (extract_or o (sched_or e.sched (backend e)))) h,
  retry_queue_full e.sched (backend e) refl,
)
