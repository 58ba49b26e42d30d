-- ===== src/Resource/Admit.antt =====
-- internal/resource/admit.go. A device id is a number, 0 for the empty string; a time is a number of
-- nanoseconds, 0 for the zero time; bytes are the bit patterns of int64.
use infer_swap.Common.{
  ℕ, ◌-◌, Bool, true, false, not, ◌||◌, List, [], ◌∷◌, ltb, leb, ◌==◌, if◌then◌else◌, add64, sub64,
  slt, sle,
}

pub record Snapshot : Type 0 where
  pub device_id : ℕ
  pub total : ℕ
  pub free : ℕ
  pub used : ℕ
  pub observed_at : ℕ
  pub valid : Bool

pub record Hold : Type 0 where
  pub id : ℕ
  pub bound : ℕ
  pub attributed : ℕ

-- max(0, bound - attributed).
unfoldable pub headroom : ℕ → ℕ → ℕ
headroom bound attributed = if sle bound attributed then 0 else sub64 bound attributed

-- The loop of Fits over the holds, from the sum so far.
unfoldable pub fits_from : ℕ → ℕ → ℕ → List Hold → Bool
unfolding headroom
fits_from free margin sum [] = true
fits_from free margin sum (h ∷ hs) =
    let sum' = add64 sum (headroom h.bound h.attributed) in
    let rest = fits_from free margin sum' hs in if slt (sub64 free margin) sum' then false else rest

unfoldable pub fits : ℕ → ℕ → List Hold → Bool
unfolding fits_from
fits free margin holds =
    if slt free 0 || slt margin 0 || slt free margin then false else fits_from free margin 0 holds

-- A maximal age is not negative here; an invalid or future snapshot is not fresh.
unfoldable pub fresh : Snapshot → ℕ → ℕ → Bool
fresh s now max_age =
    if not s.valid || s.device_id == 0 || s.observed_at == 0 || max_age == 0
    then false
    else if ltb now s.observed_at
    then false
    else leb (now - s.observed_at) max_age
