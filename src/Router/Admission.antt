-- ===== src/Router/Admission.antt =====
-- internal/router/budget.go: an admitted load fits, and a refused one leaves no trace.
use infer_swap.Common.{
  ℕ, ◌+◌, ◌^◌, ◌≤◌, ◌<◌, Bool, true, false, ◌≡◌, ◌≢◌, refl, ◌⊎◌, inl, inr, Option, none, some, List,
  [], ◌∷◌, ◌==◌, ltb, arith, lookup, if-cases, Bool-cases, Option-cases,
}
use infer_swap.Resource.Admit.{Hold}
use infer_swap.Resource.Fits.{Moderate, total_bound, fits_exact}
use infer_swap.Wire.{State}
use infer_swap.Router.State.{Model, load_bound, World, Router, model_state}
use infer_swap.Router.Budget.{
  gpu_fresh, fits_now, fits_if_rest_residual, others_at_residual, admit_without_evict,
  current_holds, rest_holds, rest_bound, bound_for, bound_of_state, residual_of_state, bind_state,
  or_else, push_hold, is_marked, fits_holds, admit_load,
}

-- The holds are known, and with the margin their bounds fit into the bytes.
abbrev pub FitsInto : ℕ → ℕ → Option (List Hold) → Type 0
FitsInto bytes margin o = (hs : List Hold) × (o ≡ some hs) × (margin + total_bound hs ≤ bytes)

-- The bounds of the configured models and the reservations are below 2 ^ 62 bytes.
abbrev pub AreSmall : List (ℕ × Model) → Type 0
AreSmall [] = Unit {0}
AreSmall ((id, m) ∷ ms) = (load_bound m < 2 ^ 62) × (m.residual < 2 ^ 62) × AreSmall ms

abbrev pub is_small : Option ℕ → Bool
is_small none = true
is_small (some b) = ltb b (2 ^ 62)

abbrev AreModerate : Option (List Hold) → Type 0
AreModerate none = Unit {0}
AreModerate (some hs) = Moderate hs

push_hold-AreModerate :
    (id : ℕ) (b : Option ℕ) (o : Option (List Hold))
    → is_small b ≡ true
    → AreModerate o
    → AreModerate (push_hold id b o)
push_hold-AreModerate id none o h k = tt
push_hold-AreModerate id (some b) none h k = tt
push_hold-AreModerate id (some b) (some hs) h k = (ground arith, refl, k)

state_bound_small :
    (m : Model) (o : Option State)
    → load_bound m < 2 ^ 62
    → m.residual < 2 ^ 62
    → (is_small (bind_state (bound_of_state m) o) ≡ true)
      × (is_small (bind_state (residual_of_state m) o) ≡ true)
unfolding bound_of_state residual_of_state
state_bound_small m none a b = (refl, refl)
state_bound_small m (some State.unknown) a b = (refl, refl)
state_bound_small m (some State.stopped) a b = (ground arith, ground arith)
state_bound_small m (some State.starting) a b = (ground arith, ground arith)
state_bound_small m (some State.ready) a b = (ground arith, ground arith)
state_bound_small m (some State.stopping) a b = (ground arith, ground arith)
state_bound_small m (some State.failed) a b = (refl, refl)
state_bound_small m (some State.shutdown) a b = (refl, refl)

or_else_small :
    (o p : Option ℕ) → is_small o ≡ true → is_small p ≡ true → is_small (or_else o p) ≡ true
or_else_small none p a b = b
or_else_small (some n) p a b = a

-- A router all of whose bytes are below 2 ^ 62.
abbrev pub IsSmall : Router → Type 0
IsSmall r =
    (r.snap.free ≤ 2 ^ 62)
    × (r.snap.total ≤ 2 ^ 62)
    × (r.margin < 2 ^ 62)
    × AreSmall r.models
    × ((j : ℕ) → is_small (r.reserved j) ≡ true)

module _ (w : World) (r : Router) (id : ℕ)
    (reserved : (j : ℕ) → is_small (r.reserved j) ≡ true) where
  current_holds-AreModerate :
      (ms : List (ℕ × Model)) → AreSmall ms → AreModerate (current_holds w r id ms)
  unfolding current_holds bound_for
  current_holds-AreModerate [] a = tt
  current_holds-AreModerate ((j, m) ∷ ms) a =
      let known =
        or_else_small (r.reserved j) _ (reserved j)
          (state_bound_small m (model_state w j) a.0 a.1).0 in
      push_hold-AreModerate j _ (current_holds w r id ms)
        (if-cases (λ (o : Option ℕ). is_small o ≡ true) (j == id) (λ _. ground arith) (λ _. known))
        (current_holds-AreModerate ms a.2)

  rest_holds-AreModerate :
      (ms : List (ℕ × Model)) → AreSmall ms → AreModerate (rest_holds w r id ms)
  unfolding rest_holds rest_bound
  rest_holds-AreModerate [] a = tt
  rest_holds-AreModerate ((j, m) ∷ ms) a =
      let bound : is_small (some (load_bound m)) ≡ true = ground arith in
      push_hold-AreModerate j _ (rest_holds w r id ms)
        (if-cases (λ (o : Option ℕ). is_small o ≡ true) (j == id) (λ _. bound)
          λ _.
            if-cases (λ (o : Option ℕ). is_small o ≡ true) (is_marked r j) (λ _. bound)
              (λ _. (state_bound_small m (model_state w j) a.0 a.1).1))
        (rest_holds-AreModerate ms a.2)

fits_holds-FitsInto :
    (bytes margin : ℕ) (o : Option (List Hold))
    → bytes ≤ 2 ^ 62
    → margin < 2 ^ 62
    → AreModerate o
    → fits_holds bytes margin o ≡ true
    → FitsInto bytes margin o
fits_holds-FitsInto bytes margin none b m d h = cc
fits_holds-FitsInto bytes margin (some hs) b m d h =
    (hs, refl, ground (arith, fits_exact bytes margin hs b (omega arith) d))

-- The room that an admitted load has: now, or with every other model stopped at its residual.
abbrev pub HasRoom : World → Router → ℕ → Type 0
HasRoom w r id =
    FitsInto r.snap.free r.margin (current_holds w r id r.models)
    ⊎ ((others_at_residual w r id r.models ≡ true)
        × FitsInto r.snap.total r.margin (rest_holds w r id r.models))

admit_without_evict-HasRoom :
    (w : World) (r : Router) (id : ℕ)
    → IsSmall r
    → admit_without_evict w r id ≡ true
    → HasRoom w r id
unfolding admit_without_evict fits_now fits_if_rest_residual
admit_without_evict-HasRoom w r id (f, t, m, ms, rs) h =
    elim (Bool-cases (fits_holds r.snap.free r.margin (current_holds w r id r.models))) [
      | inl now ↦
          inl (fits_holds-FitsInto _ _ _ f m (current_holds-AreModerate w r id rs r.models ms) now)
      | inr later ↦ inr (
        ground arith,
        fits_holds-FitsInto _ _ _ t m (rest_holds-AreModerate w r id rs r.models ms) (ground arith),
      )
    ]

-- A load is admitted only while the router runs, with a fresh sample, when no other load is being
-- served, and when it has room, where the bytes of the sample, the margin, the models and the
-- reservations are below 2 ^ 62: with the margin, the bounds of all models fit into the free bytes,
-- or every other model is stopped at its residual and these and the load fit into the total. Then
-- the load's peak is reserved, and the next load waits for it.
pub admit_load_room :
    (w : World) (id : ℕ) (r : Router)
    → IsSmall r
    → (admit_load w id r).1 ≡ none
    → let t = (admit_load w id r).0 in
      (r.shutting ≡ false)
      × (gpu_fresh w r ≡ true)
      × ((r.load_serial ≡ 0) ⊎ (r.load_serial ≡ id))
      × HasRoom w r id
      × (m : Model) × (lookup id r.models ≡ some m)
      × (t.reserved id ≡ some (load_bound m))
      × (t.load_serial ≡ id)
unfolding admit_load
admit_load_room w id r small h = elim (Option-cases (lookup id r.models)) [
  | inl o ↦ absurd (ground arith)
  | inr (mod_, o) ↦ (
    ground arith,
    ground arith,
    ground arith,
    admit_without_evict-HasRoom w r id small (ground arith),
    mod_,
    o,
    ground arith,
    ground arith,
  )
]

-- A refused load leaves the router as it was, and a load that is admitted changes neither the
-- reservation of another model nor a residual marker.
pub admit_load_frame :
    (w : World) (id : ℕ) (r : Router) (j : ℕ)
    → j ≢ id
    → let t = (admit_load w id r).0 in
      (((admit_load w id r).1 ≡ none) ⊎ (t ≡ r))
      × (t.reserved j ≡ r.reserved j)
      × (t.residual_after ≡ r.residual_after)
unfolding admit_load
admit_load_frame w id r j n = elim (Option-cases (lookup id r.models)) [
  | inl o ↦ (ground arith, ground arith, ground arith)
  | inr (m, o) ↦ (ground arith, ground arith, ground arith)
]
