-- ===== src/Router/Observation.antt =====
-- internal/router/base.go: what a valid sample of the right device does to the ledger.
use infer_swap.Common.{
  ℕ, keep, keys, ltb, leb, true, not, ◌||◌, ◌≡◌, refl, sym, ◌∙◌, ap, inl, inr, Option, none, some,
  List, [], ◌∷◌, ◌==◌, arith, lookup, if-cases, Bool-cases, Option-cases, contains, if◌then◌else◌,
}
use infer_swap.Resource.Admit.{Snapshot}
use infer_swap.Router.State.{Model, World, Router}
use infer_swap.Router.Budget.{reserve, reserve_known, hold_residual}
use infer_swap.Router.Loop.{
  scheduled, cleared_by, kept_by, hold_residuals, clear_markers, apply_observation,
}

-- Two routers that differ in the state of the scheduler at most.
abbrev Kept : Router → Router → Type 0
Kept r t = (t.reserved ≡ r.reserved) × (t.residual_after ≡ r.residual_after) × (t.snap ≡ r.snap)

clear_markers-Kept : (w : World) (ids : List ℕ) (r : Router) → Kept r (clear_markers w ids r)
unfolding clear_markers scheduled
clear_markers-Kept w [] r = (refl, refl, refl)
clear_markers-Kept w (id ∷ ids) r = clear_markers-Kept w ids _

-- The reservation of a model once the residuals of the listed models are held.
unfoldable pub residual_held : List ℕ → ℕ → Option Model → Option ℕ → Option ℕ
residual_held ids j none old = old
residual_held ids j (some m) old = if contains j ids then some m.residual else old

unlisted : (j : ℕ) (o : Option Model) (old : Option ℕ) → residual_held [] j o old ≡ old
unfolding residual_held
unlisted j none old = refl
unlisted j (some m) old = refl

-- One more listed model.
residual_held-next :
    (id : ℕ) (ids : List ℕ) (j : ℕ) (o : Option Model) (old : Option ℕ)
    → residual_held ids j o (if id == j then residual_held (id ∷ []) j o old else old)
      ≡ residual_held (id ∷ ids) j o old
unfolding residual_held
residual_held-next id ids j none old = ground arith
residual_held-next id ids j (some m) old = ground arith

-- What holding a residual leaves, whether the model is configured or not.
hold_residual-reserved :
    (id : ℕ) (r : Router) (j : ℕ)
    → (hold_residual id r).reserved j ≡ (
        if id == j
        then residual_held (id ∷ []) j (lookup j r.models) (r.reserved j)
        else r.reserved j)
unfolding hold_residual reserve_known reserve residual_held
hold_residual-reserved id r j = elim (Bool-cases (id == j)) [
  | inl same ↦
      let e : id ≡ j = ground arith in
      let found = ap (λ x. lookup x r.models) e in
      elim (Option-cases (lookup j r.models)) [
        | inl o ↦ ground (arith, found)
        | inr (m, o) ↦ ground (arith, found)
      ]
  | inr other ↦ elim (Option-cases (lookup id r.models)) [
    | inl o ↦ ground arith
    | inr (m, o) ↦ ground arith
  ]
]

hold_residual_frame :
    (id : ℕ) (r : Router)
    → ((hold_residual id r).models ≡ r.models)
      × ((hold_residual id r).residual_after ≡ r.residual_after)
      × ((hold_residual id r).snap ≡ r.snap)
unfolding hold_residual reserve_known reserve
hold_residual_frame id r = elim (Option-cases (lookup id r.models)) [
  | inl o ↦ (ground arith, ground arith, ground arith)
  | inr (m, o) ↦ (ground arith, ground arith, ground arith)
]

hold_residuals-reserved :
    (ids : List ℕ) (r : Router) (j : ℕ)
    → (hold_residuals ids r).reserved j ≡ residual_held ids j (lookup j r.models) (r.reserved j)
unfolding hold_residuals
hold_residuals-reserved [] r j = sym (unlisted j (lookup j r.models) (r.reserved j))
hold_residuals-reserved (id ∷ ids) r j =
    hold_residuals-reserved ids (hold_residual id r) j
    ∙ (ap (λ ms. residual_held ids j (lookup j ms) ((hold_residual id r).reserved j))
          (hold_residual_frame id r).0
        ∙ (ap (residual_held ids j (lookup j r.models)) (hold_residual-reserved id r j)
            ∙ residual_held-next id ids j (lookup j r.models) (r.reserved j)))

hold_residuals_frame :
    (ids : List ℕ) (r : Router)
    → ((hold_residuals ids r).residual_after ≡ r.residual_after)
      × ((hold_residuals ids r).snap ≡ r.snap)
unfolding hold_residuals
hold_residuals_frame [] r = (refl, refl)
hold_residuals_frame (id ∷ ids) r =
    let p = hold_residuals_frame ids (hold_residual id r) in
    let q = hold_residual_frame id r in (p.0 ∙ q.1, p.1 ∙ q.2)

-- What an observation is to leave of the ledger.
abbrev pub Observed : Snapshot → Router → Router → Type 0
Observed snap r t =
    (t.snap ≡ snap)
    × (t.residual_after ≡ kept_by snap.observed_at r.residual_after)
    × ((j : ℕ)
        → t.reserved j
          ≡ residual_held (cleared_by snap.observed_at r.residual_after) j (lookup j r.models)
              (r.reserved j))

observed :
    (w : World) (snap : Snapshot) (r : Router) (ids : List ℕ)
    → ids ≡ cleared_by snap.observed_at r.residual_after
    → Observed snap r (
        clear_markers w ids (
          hold_residuals ids (record r {
            snap = snap;
            boot_gpu = true;
            residual_after = kept_by snap.observed_at r.residual_after;
          })))
observed w snap r ids e =
    let r' = record r {
      snap = snap;
      boot_gpu = true;
      residual_after = kept_by snap.observed_at r.residual_after;
    } in
    let k = clear_markers-Kept w ids (hold_residuals ids r') in
    let f = hold_residuals_frame ids r' in
    (
      k.2 ∙ f.1,
      k.1 ∙ f.0,
      (λ j.
          ap (λ m. m j) k.0
          ∙ (hold_residuals-reserved ids r' j
              ∙ ap (λ l. residual_held l j (lookup j r.models) (r.reserved j)) e)),
    )

pub apply_observation-Observed :
    (w : World) (snap : Snapshot) (r : Router)
    → snap.valid ≡ true
    → (snap.device_id == r.device) ≡ true
    → Observed snap r (apply_observation w snap r)
unfolding apply_observation
apply_observation-Observed w snap r v d =
    if-cases (Observed snap r) (not snap.valid || not (snap.device_id == r.device))
      (λ bad. absurd (ground arith))
      (λ _. observed w snap r (cleared_by snap.observed_at r.residual_after) refl)

-- The markers that are earlier than a sample, and those that are not.
abbrev pub outdated : ℕ → List (ℕ × ℕ) → List (ℕ × ℕ)
outdated observed ms = keep (λ (m : ℕ × ℕ). ltb m.1 observed) ms

abbrev pub lasting : ℕ → List (ℕ × ℕ) → List (ℕ × ℕ)
lasting observed ms = keep (λ (m : ℕ × ℕ). leb observed m.1) ms

pub cleared_by-outdated :
    (observed : ℕ) (ms : List (ℕ × ℕ)) → cleared_by observed ms ≡ keys (outdated observed ms)
unfolding cleared_by
cleared_by-outdated observed [] = refl
cleared_by-outdated observed ((j, at) ∷ ms) = ground (arith, cleared_by-outdated observed ms)

kept_by-lasting : (observed : ℕ) (ms : List (ℕ × ℕ)) → kept_by observed ms ≡ lasting observed ms
unfolding kept_by
kept_by-lasting observed [] = refl
kept_by-lasting observed ((j, at) ∷ ms) = ground (arith, kept_by-lasting observed ms)

-- A valid sample of the router's device becomes its snapshot. The markers left are those whose time
-- is at or after that of the sample. Each configured model with a marker of an earlier time holds its
-- residual from then on, and every other reservation stays.
pub apply_observation_ledger :
    (w : World) (snap : Snapshot) (r : Router)
    → snap.valid ≡ true
    → (snap.device_id == r.device) ≡ true
    → let t = apply_observation w snap r in
      (t.snap ≡ snap)
      × (t.residual_after ≡ lasting snap.observed_at r.residual_after)
      × ((j : ℕ)
          → t.reserved j
            ≡ residual_held
                (keys (outdated snap.observed_at r.residual_after))
                j
                (lookup j r.models)
                (r.reserved j))
apply_observation_ledger w snap r v d =
    let (taken, left, held) = apply_observation-Observed w snap r v d in
    (
      taken,
      left ∙ kept_by-lasting snap.observed_at r.residual_after,
      λ j.
          held j
          ∙ ap (λ ids. residual_held ids j (lookup j r.models) (r.reserved j))
              (cleared_by-outdated snap.observed_at r.residual_after),
    )
