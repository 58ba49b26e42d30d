-- ===== src/Common/Words.antt =====
-- int64 and uint64 as bit patterns below 2 ^ 64: the arithmetic of Go wraps, and a signed
-- comparison moves both sides by 2 ^ 63.
use Prim.Native.Nat.{ℕ, ◌+◌, ◌-◌, ◌%◌, ◌^◌}
use mathlib.Core.Bool.{Bool}
use infer_swap.Common.Tests.{ltb, leb}

-- `a + b` and `a - b`.
abbrev pub add64 : ℕ → ℕ → ℕ
add64 a b = (a + b) % 2 ^ 64

abbrev pub sub64 : ℕ → ℕ → ℕ
sub64 a b = (a + 2 ^ 64 - b) % 2 ^ 64

abbrev pub lift64 : ℕ → ℕ
lift64 a = (a + 2 ^ 63) % 2 ^ 64

-- `a < b` and `a <= b` of int64.
abbrev pub slt : ℕ → ℕ → Bool
slt a b = ltb (lift64 a) (lift64 b)

abbrev pub sle : ℕ → ℕ → Bool
sle a b = leb (lift64 a) (lift64 b)
