-- ===== src/Sched/Drain.antt =====
-- internal/router/scheduler/fifo.go: drainDeadline against drainExpired.
use infer_swap.Common.{
  ℕ, ◌+◌, ◌||◌, ◌≡◌, ◌≢◌, ◌∙◌, List, [], ◌∷◌, leb, ltb, arith, Option-cases, inl, inr,
  if◌then◌else◌,
}
use infer_swap.Sched.Types.{Fifo, Env}
use infer_swap.Sched.Gates.{deadline_from, any_expired, drain_deadline, drain_expired}

deadline_passed :
    (now : ℕ) (s : Fifo) (ids : List ℕ) (deadline : ℕ)
    → leb (deadline_from s deadline ids) now ≡ (leb deadline now || any_expired now s ids)
unfolding deadline_from any_expired
deadline_passed now s [] deadline = ground arith
deadline_passed now s (id ∷ ids) deadline = elim (Option-cases (s.gate_at id)) [
  | inl o ↦ rw o (deadline_passed now s ids deadline)
  | inr (at, o) ↦ rw o (
      deadline_passed now s ids (if ltb (at + s.drain) deadline then at + s.drain else deadline)
      ∙ ground arith)
]

-- The deadline that a drain is given, and at which the scheduler asks to be reminded, is the moment
-- from which on the drain counts as expired, unless the drain time is 0, which means no limit.
pub drain_expired-drain_deadline :
    (env : Env) (s : Fifo) (ids : List ℕ)
    → s.drain ≢ 0
    → drain_expired env s ids ≡ leb (drain_deadline env s ids) env.now
unfolding drain_expired drain_deadline
drain_expired-drain_deadline env s ids n =
    ground (arith, deadline_passed env.now s ids (env.now + s.drain))
