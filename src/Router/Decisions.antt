-- ===== src/Router/Decisions.antt =====
-- internal/router/budget.go: what a decision to evict and an admitted load rest on.
use infer_swap.Common.{
  ℕ, Bool, true, false, not, ◌||◌, ◌≡◌, ◌≢◌, refl, sym, subst, ◌∙◌, if◌then◌else◌, ap, inl, inr,
  Option, none, some, List, [], ◌∷◌, ◌==◌, contains, arith, if-cases, Bool-cases, Option-cases,
}
use infer_swap.Sched.Types.{evicts}
use infer_swap.Router.State.{World, Router, model_state}
use infer_swap.Router.Budget.{
  gpu_fresh, fits_if_rest_residual, admit_without_evict, Candidate, candidates, before, oldest,
  oldest_resident, use_time, decide, state_ready,
}

-- A candidate is in the list that it was taken from, is not the target, and is ready.
abbrev pub IsCandidate : World → Router → ℕ → List ℕ → Candidate → Type 0
IsCandidate w r target running c =
    (contains c.id running ≡ true)
    × (c.id ≢ target)
    × (state_ready (model_state w c.id) ≡ true)
    × (c.at ≡ use_time r c.id)

abbrev All {ℓ κ} : {A : Type ℓ} → (A → Type κ) → List A → Type κ
All P [] = Unit
All P (x ∷ xs) = P x × All P xs

weaken :
    (w : World) (r : Router) (target id : ℕ) (ids : List ℕ) (cs : List Candidate)
    → All (IsCandidate w r target ids) cs
    → All (IsCandidate w r target (id ∷ ids)) cs
weaken w r target id ids [] h = tt
weaken w r target id ids (c ∷ cs) h =
    ((ground arith, h.0.1, h.0.2, h.0.3), weaken w r target id ids cs h.1)

candidates_lem :
    (w : World) (r : Router) (target : ℕ) (ids : List ℕ)
    → All (IsCandidate w r target ids) (candidates w r target ids)
unfolding candidates
candidates_lem w r target [] = tt
candidates_lem w r target (id ∷ ids) =
    let rest = weaken w r target id ids _ (candidates_lem w r target ids) in
    if-cases (All (IsCandidate w r target (id ∷ ids)))
      (id == target || not (state_ready (model_state w id))) (λ _. rest)
      (λ h. ((ground arith, ground arith, ground arith, refl), rest))

later :
    (P : Candidate → Type 0) (b : Bool) (c : Candidate) (cs : List Candidate)
    → All P (if b then cs else c ∷ cs)
    → All P cs
later P true c cs h = h
later P false c cs h = h.1

-- What holds of all candidates holds of every ready model of the list but the target.
candidates_complete :
    (w : World) (r : Router) (target : ℕ) (ids : List ℕ) (P : Candidate → Type 0) (u : ℕ)
    → All P (candidates w r target ids)
    → contains u ids ≡ true
    → u ≢ target
    → state_ready (model_state w u) ≡ true
    → P (record { id = u; at = use_time r u })
unfolding candidates
candidates_complete w r target [] P u h c n s = cc
candidates_complete w r target (x ∷ ids) P u h c n s = elim (Bool-cases (x == u)) [
  | inl same ↦
      let e : x ≡ u = ground arith in
      let listed : (x == target || not (state_ready (model_state w x))) ≡ false = ground arith in
      subst (λ y. P (record { id = y; at = use_time r y })) e (rw listed at h).0
  | inr other ↦
      candidates_complete w r target ids P u
        (later P (x == target || not (state_ready (model_state w x))) _ _ h) (ground arith) n s
]

-- The best of a list: no candidate comes before it, and it is one of them.
abbrev Best : (Candidate → Type 0) → List Candidate → Option Candidate → Type 0
Best P cs none = cs ≡ []
Best P cs (some c) = All (λ d. before d c ≡ false) cs × (All P cs → P c)

before_irrefl : (c : Candidate) → before c c ≡ false
unfolding before
before_irrefl c = ground arith

before_asym : (c d : Candidate) → before c d ≡ true → before d c ≡ false
unfolding before
before_asym c d h = ground arith

not_before_trans :
    (e d c : Candidate) → before e d ≡ false → before d c ≡ false → before e c ≡ false
unfolding before
not_before_trans e d c h k = ground arith

none_before_trans :
    (cs : List Candidate) (d c : Candidate)
    → before d c ≡ false
    → All (λ e. before e d ≡ false) cs
    → All (λ e. before e c ≡ false) cs
none_before_trans [] d c k h = tt
none_before_trans (e ∷ cs) d c k h = (not_before_trans e d c h.0 k, none_before_trans cs d c k h.1)

pick :
    (P : Candidate → Type 0) (x : Candidate) (cs : List Candidate) (o : Option Candidate)
    → Best P cs o
    → Best P (x ∷ cs) (elim o [ none ↦ some x | some d ↦ if before d x then some d else some x ])
pick P x cs none b = ((before_irrefl x, subst (All (λ d. before d x ≡ false)) (sym b) tt), λ h. h.0)
pick P x cs (some d) b =
    if-cases (Best P (x ∷ cs)) (before d x) (λ h. ((before_asym d x h, b.0), λ ps. b.1 ps.1))
      (λ h. ((before_irrefl x, none_before_trans cs d x h b.0), λ ps. ps.0))

oldest-Best : (P : Candidate → Type 0) (cs : List Candidate) → Best P cs (oldest cs)
unfolding oldest
oldest-Best P [] = refl
oldest-Best P (x ∷ cs) = pick P x cs (oldest cs) (oldest-Best P cs)

decide_evicts :
    (w : World) (r : Router) (target v : ℕ) (vs running : List ℕ)
    → decide w r target running ≡ evicts (v ∷ vs)
    → (vs ≡ [])
      × (c : Candidate) × (oldest (candidates w r target running) ≡ some c)
      × (c.id ≡ v)
      × (gpu_fresh w r ≡ true)
      × (admit_without_evict w r target ≡ false)
      × (fits_if_rest_residual w r target ≡ true)
unfolding decide oldest_resident
decide_evicts w r target v vs running e =
    elim (Option-cases (oldest (candidates w r target running))) [
      | inl o ↦ absurd (ground arith)
      | inr (c, o) ↦ (ground arith, c, o, ground arith, ground arith, ground arith, ground arith)
    ]

-- A decision to evict names one model: a ready one of those that run, other than the target. The
-- sample is fresh, the target does not fit now, and it fits the device with each other model at its
-- residual, or at its load bound where the residual is not yet confirmed by a sample.
pub decide_victim :
    (w : World) (r : Router) (target v : ℕ) (vs running : List ℕ)
    → decide w r target running ≡ evicts (v ∷ vs)
    → (vs ≡ [])
      × (contains v running ≡ true)
      × (v ≢ target)
      × (state_ready (model_state w v) ≡ true)
      × (gpu_fresh w r ≡ true)
      × (admit_without_evict w r target ≡ false)
      × (fits_if_rest_residual w r target ≡ true)
unfolding decide
decide_victim w r target v vs running e =
    let (one, c, picked, named, fresh_now, unfit, later_fit) =
      decide_evicts w r target v vs running e in
    let best =
      subst (Best (IsCandidate w r target running) (candidates w r target running)) picked
        (oldest-Best _ _) in
    let is_cand : IsCandidate w r target running c = best.1 (candidates_lem w r target running) in
    (
      one,
      subst (λ u. contains u running ≡ true) named is_cand.0,
      (λ same. is_cand.1 (named ∙ same)),
      subst (λ u. state_ready (model_state w u) ≡ true) named is_cand.2,
      fresh_now,
      unfit,
      later_fit,
    )

-- No ready model of those that run, other than the target, was used longer ago than the model that
-- a decision evicts; of two that were used at the same time, the one with the smaller id goes.
pub decide_oldest :
    (w : World) (r : Router) (target v : ℕ) (vs running : List ℕ) (u : ℕ)
    → decide w r target running ≡ evicts (v ∷ vs)
    → contains u running ≡ true
    → u ≢ target
    → state_ready (model_state w u) ≡ true
    → before (record { id = u; at = use_time r u }) (record { id = v; at = use_time r v }) ≡ false
unfolding decide
decide_oldest w r target v vs running u e h n s =
    let (one, c, picked, named, fresh_now, unfit, later_fit) =
      decide_evicts w r target v vs running e in
    let best =
      subst (Best (IsCandidate w r target running) (candidates w r target running)) picked
        (oldest-Best _ _) in
    let is_cand : IsCandidate w r target running c = best.1 (candidates_lem w r target running) in
    subst (λ x. before (record { id = u; at = use_time r u }) x ≡ false)
      (λ i. record { id = named i; at = (is_cand.3 ∙ ap (use_time r) named) i })
      (candidates_complete w r target running (λ d. before d c ≡ false) u best.0 h n s)
