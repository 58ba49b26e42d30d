-- ===== src/Resource/Overflow.antt =====
-- The int64 sum of Fits can overflow, and then Fits admits what does not fit.
use infer_swap.Common.{ℕ, ◌+◌, ◌^◌, ◌≤◌, ◌<◌, true, ◌≡◌, [], ◌∷◌, arith}
use infer_swap.Resource.Admit.{Hold, headroom, fits_from, fits}

abbrev pub hold : ℕ → ℕ → Hold
hold id bound = record { id = id; bound = bound; attributed = 0 }

-- Without a margin, for two holds with int64 bounds of which the first fits and the two together
-- pass the largest int64, Fits says yes, whatever is free: the sum turns negative.
pub fits_overflow :
    (free a b : ℕ)
    → free < 2 ^ 63
    → a ≤ free
    → b < 2 ^ 63
    → 2 ^ 63 ≤ a + b
    → fits free 0 (hold 1 a ∷ hold 2 b ∷ []) ≡ true
unfolding fits fits_from headroom
fits_overflow free a b f h k o = ground arith
