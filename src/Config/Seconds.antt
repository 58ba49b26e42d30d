-- ===== src/Config/Seconds.antt =====
-- internal/config/config.go: the range of seconds.
use infer_swap.Common.{ℕ, ◌*◌, ◌≤◌, ◌<◌, true, ◌≡◌, some, ok, arith, slt}
use infer_swap.Config.Checks.{seconds, second}

-- A positive count of at most 9223372036 seconds, 292 years, gives exactly that duration.
pub seconds_exact :
    (n fallback : ℕ) → 0 < n → n ≤ 9_223_372_036 → seconds (some n) fallback ≡ ok (n * second)
unfolding seconds
seconds_exact n fallback p q = ground arith

-- A count from 9223372037 to 18446744073 seconds passes the check, and its duration is negative.
pub seconds_overflow :
    (n fallback : ℕ)
    → 9_223_372_037 ≤ n
    → n ≤ 18_446_744_073
    → (d : ℕ) × (seconds (some n) fallback ≡ ok d) × (slt d 0 ≡ true)
unfolding seconds
seconds_overflow n fallback l u = (n * second, ground arith, ground arith)
