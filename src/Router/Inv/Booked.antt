-- ===== src/Router/Inv/Booked.antt =====
-- internal/router/budget.go: what a reservation is, and the changes that keep it so.
use infer_swap.Common.{
  ℕ, Bool, true, false, not, ◌||◌, ◌≡◌, refl, sym, ap, Option, none, some, List, [], ◌∷◌, ◌==◌,
  if-cases, arith, lookup,
}
use infer_swap.Resource.Admit.{Snapshot}
use infer_swap.Router.State.{World, Router, Model, load_bound}
use infer_swap.Router.Budget.{reserve, reserve_known, hold_residual}
use infer_swap.Router.Ledger.{ensure_peak, ensure_peak_of, mark_residual}
use infer_swap.Router.Loop.{scheduled, apply_observation, clear_markers, hold_residuals}

-- A reservation is the residual or the load bound of a configured model.
abbrev pub is_booked : Option Model → Option ℕ → Bool
is_booked o none = true
is_booked none (some b) = false
is_booked (some m) (some b) = b == m.residual || b == load_bound m

abbrev pub is_held : Option ℕ → Bool
is_held none = false
is_held (some b) = true

abbrev pub IsBooked : Router → Type 0
IsBooked r =
    ((j : ℕ) → is_booked (lookup j r.models) (r.reserved j) ≡ true)
    × (r.load_serial == 0 || is_held (r.reserved r.load_serial) ≡ true)

pub same_key : (id j : ℕ) (ms : List (ℕ × Model)) → (id == j) ≡ true → lookup id ms ≡ lookup j ms
same_key id j ms h = let e : id ≡ j = ground arith in ap (λ x. lookup x ms) e

pub reserve-IsBooked :
    (id b : ℕ) (m : Model) (r : Router)
    → lookup id r.models ≡ some m
    → (b == m.residual || b == load_bound m) ≡ true
    → IsBooked r
    → IsBooked (reserve id b r)
unfolding reserve
reserve-IsBooked id b m r o k h =
    ((λ j. ground (arith, h.0 j, same_key j id r.models)), ground (arith, h.1))

pub reserve_known-IsBooked :
    (id : ℕ) (f : Model → ℕ) (o : Option Model) (r : Router)
    → o ≡ lookup id r.models
    → ((m : Model) → (f m == m.residual || f m == load_bound m) ≡ true)
    → IsBooked r
    → IsBooked (reserve_known id f o r)
unfolding reserve_known
reserve_known-IsBooked id f none r e k h = h
reserve_known-IsBooked id f (some m) r e k h = reserve-IsBooked id (f m) m r (sym e) (k m) h

pub residual_fits : (m : Model) → (m.residual == m.residual || m.residual == load_bound m) ≡ true
residual_fits m = ground arith

pub bound_fits : (m : Model) → (load_bound m == m.residual || load_bound m == load_bound m) ≡ true
bound_fits m = ground arith

hold_residuals-IsBooked : (ids : List ℕ) (r : Router) → IsBooked r → IsBooked (hold_residuals ids r)
unfolding hold_residuals hold_residual
hold_residuals-IsBooked [] r h = h
hold_residuals-IsBooked (id ∷ ids) r h =
    hold_residuals-IsBooked ids (reserve_known id (λ m. m.residual) (lookup id r.models) r)
      (reserve_known-IsBooked id (λ m. m.residual) (lookup id r.models) r refl residual_fits h)

clear_markers-IsBooked :
    (w : World) (ids : List ℕ) (r : Router) → IsBooked r → IsBooked (clear_markers w ids r)
unfolding clear_markers scheduled
clear_markers-IsBooked w [] r h = h
clear_markers-IsBooked w (id ∷ ids) r h = clear_markers-IsBooked w ids _ h

pub apply_observation-IsBooked :
    (w : World) (snap : Snapshot) (r : Router) → IsBooked r → IsBooked (apply_observation w snap r)
unfolding apply_observation scheduled
apply_observation-IsBooked w snap r h =
    if-cases IsBooked (not snap.valid || not (snap.device_id == r.device)) (λ _. h)
      (λ _. clear_markers-IsBooked w _ _ (hold_residuals-IsBooked _ _ h))

ensure_peak_of-IsBooked :
    (id : ℕ) (o : Option Model) (r : Router)
    → o ≡ lookup id r.models
    → IsBooked r
    → IsBooked (ensure_peak_of id o r)
unfolding ensure_peak_of
ensure_peak_of-IsBooked id none r e h = h
ensure_peak_of-IsBooked id (some m) r e h =
    if-cases IsBooked _ (λ _. h)
      (λ _. reserve-IsBooked id (load_bound m) m r (sym e) (bound_fits m) h)

pub ensure_peak-IsBooked : (id : ℕ) (r : Router) → IsBooked r → IsBooked (ensure_peak id r)
unfolding ensure_peak
ensure_peak-IsBooked id r h = ensure_peak_of-IsBooked id (lookup id r.models) r refl h

pub mark_residual-IsBooked :
    (id at : ℕ) (r : Router) → IsBooked r → IsBooked (mark_residual id at r)
unfolding mark_residual
mark_residual-IsBooked id at r h = if-cases IsBooked _ (λ _. h) (λ _. h)
