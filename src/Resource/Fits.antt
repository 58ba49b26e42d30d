-- ===== src/Resource/Fits.antt =====
-- Fits against the sum of the bounds in whole numbers, where the int64 sums do not overflow.
use infer_swap.Common.{
  ℕ, ◌+◌, ◌^◌, ◌≤◌, ◌<◌, Bool, ◌≡◌, List, [], ◌∷◌, leb, ltb, arith, if-cases, ap, ◌∙◌, ◌||◌, add64,
  sub64, slt,
}
use infer_swap.Resource.Admit.{Hold, headroom, fits_from, fits}

-- Every bound is below 2 ^ 62, and nothing is attributed, as with every caller.
abbrev pub Moderate : List Hold → Type 0
Moderate [] = Unit {0}
Moderate (h ∷ hs) = (h.bound < 2 ^ 62) × (h.attributed ≡ 0) × Moderate hs

-- The bytes that the holds ask for together.
abbrev pub total_bound : List Hold → ℕ
total_bound [] = 0
total_bound (h ∷ hs) = h.bound + total_bound hs

headroom-zero : (b : ℕ) → b < 2 ^ 62 → headroom b 0 ≡ b
unfolding headroom
headroom-zero b h = ground arith

-- The test of one round, with the wrap-around gone.
round_exact :
    (free margin sum : ℕ) (h : Hold)
    → free ≤ 2 ^ 62
    → margin + sum ≤ free
    → h.bound < 2 ^ 62
    → h.attributed ≡ 0
    → (add64 sum (headroom h.bound h.attributed) ≡ sum + h.bound)
      × (slt (sub64 free margin) (sum + h.bound) ≡ ltb free (margin + sum + h.bound))
round_exact free margin sum h f m b a =
    (rw a (rw (headroom-zero h.bound b) (omega arith)), ground arith)

fits_from-exact :
    (free margin sum : ℕ) (hs : List Hold)
    → free ≤ 2 ^ 62
    → margin + sum ≤ free
    → Moderate hs
    → fits_from free margin sum hs ≡ leb (margin + sum + total_bound hs) free
unfolding fits_from
fits_from-exact free margin sum [] f m d = ground arith
fits_from-exact free margin sum (h ∷ hs) f m d =
    let (added, tested) = round_exact free margin sum h f m d.0 d.1 in
    rw (added, tested)
      (if-cases (λ (b : Bool). b ≡ leb (margin + sum + (h.bound + total_bound hs)) free)
        (ltb free (margin + sum + h.bound)) (λ over. ground arith)
        (λ under.
          fits_from-exact free margin (sum + h.bound) hs f (ground arith) d.2
          ∙ ap (λ (n : ℕ). leb n free) (omega arith)))

-- For a free count of at most 2 ^ 62 bytes, a margin below 2 ^ 63, and bounds below 2 ^ 62 bytes
-- each with nothing attributed, Fits answers whether the margin and all bounds together fit into the free bytes.
pub fits_exact :
    (free margin : ℕ) (holds : List Hold)
    → free ≤ 2 ^ 62
    → margin < 2 ^ 63
    → Moderate holds
    → fits free margin holds ≡ leb (margin + total_bound holds) free
unfolding fits
fits_exact free margin holds f m d =
    if-cases (λ (b : Bool). b ≡ leb (margin + total_bound holds) free)
      (slt free 0 || slt margin 0 || slt free margin) (λ bad. ground arith)
      (λ good.
        fits_from-exact free margin 0 holds f (ground arith) d
        ∙ ap (λ (n : ℕ). leb n free) (omega arith))
