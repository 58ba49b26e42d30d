-- ===== src/Router/Cleared.antt =====
-- internal/router/base.go: StartUnload and finishUnload together.
use infer_swap.Common.{
  ℕ, Bool, true, false, not, ◌&&◌, ◌||◌, ◌≡◌, refl, ap, ◌∙◌, inl, inr, ◌⊎◌, Option, none, some,
  List, [], ◌∷◌, ◌==◌, ltb, arith, contains, lookup, Bool-cases,
}
use infer_swap.Router.State.{Model, World, Router, without, with_entry}
use infer_swap.Router.Loop.{
  Notice, cleared_by, kept_by, mark_all, finish_unload, scheduled, apply_observation,
}
use infer_swap.Router.Observation.{residual_held, apply_observation-Observed}
use infer_swap.Router.Unload.{Job, notice, start_unload, is_later}
use infer_swap.Router.Proved.{IsProved, start_unload-IsProved}

-- Whether there are markers of a model, and all of them are earlier than a sample.
abbrev is_early : ℕ → ℕ → List (ℕ × ℕ) → Bool
is_early id observed [] = true
is_early id observed ((j, at) ∷ ms) = (not (j == id) || ltb at observed) && is_early id observed ms

module _ (id observed : ℕ) where
  without-is_early :
      (k : ℕ) (ms : List (ℕ × ℕ))
      → is_early id observed ms ≡ true
      → is_early id observed (without k ms) ≡ true
  without-is_early k [] h = refl
  without-is_early k ((j, at) ∷ ms) h = ground (arith, without-is_early k ms)

  without_self : (ms : List (ℕ × ℕ)) → is_early id observed (without id ms) ≡ true
  without_self [] = refl
  without_self ((j, at) ∷ ms) = ground (arith, without_self ms)

  with_entry-is_early :
      (k at : ℕ) (ms : List (ℕ × ℕ))
      → ltb at observed ≡ true
      → (k == id || is_early id observed ms) ≡ true
      → is_early id observed (with_entry k at ms) ≡ true
  with_entry-is_early k at ms early h = elim (Bool-cases (k == id)) [
    | inl same ↦
        let e : k ≡ id = ground arith in
        ground (arith, ap (λ x. is_early id observed (without x ms)) e, without_self ms)
    | inr other ↦ ground (arith, without-is_early k ms)
  ]

  mark_all-is_early :
      (ids : List ℕ) (at : ℕ) (ms : List (ℕ × ℕ))
      → ltb at observed ≡ true
      → (contains id ids || is_early id observed ms) ≡ true
      → is_early id observed (mark_all ids at ms) ≡ true
  unfolding mark_all
  mark_all-is_early [] at ms early h = ground arith
  mark_all-is_early (k ∷ ids) at ms early h =
      mark_all-is_early ids at (with_entry k at ms) early (elim (Bool-cases (contains id ids)) [
        | inl listed ↦ ground arith
        | inr unlisted ↦ ground (arith, with_entry-is_early k at ms early (ground arith))
      ])

  kept_by-is_early :
      (ms : List (ℕ × ℕ)) → is_early id observed ms ≡ true → lookup id (kept_by observed ms) ≡ none
  unfolding kept_by
  kept_by-is_early [] h = refl
  kept_by-is_early ((j, at) ∷ ms) h = ground (arith, kept_by-is_early ms)

  lookup-without :
      (k : ℕ) (ms : List (ℕ × ℕ)) → (k == id) ≡ false → lookup id (without k ms) ≡ lookup id ms
  lookup-without k [] h = refl
  lookup-without k ((j, at) ∷ ms) h = ground (arith, lookup-without k ms)

  -- A model that is listed, or is marked so already, is marked with the time.
  lookup-mark_all :
      (ids : List ℕ) (at : ℕ) (ms : List (ℕ × ℕ))
      → (contains id ids ≡ true) ⊎ (lookup id ms ≡ some at)
      → lookup id (mark_all ids at ms) ≡ some at
  unfolding mark_all
  lookup-mark_all [] at ms (inl h) = absurd cc
  lookup-mark_all [] at ms (inr h) = h
  lookup-mark_all (k ∷ ids) at ms h =
      lookup-mark_all ids at (with_entry k at ms) (elim (Bool-cases (k == id)) [
        | inl same ↦ inr (ground arith)
        | inr other ↦ elim h [
          | inl listed ↦ inl (ground arith)
          | inr marked ↦ inr (ground (arith, lookup-without k ms))
        ]
      ])

  contains-cleared_by :
      (at : ℕ) (ms : List (ℕ × ℕ))
      → lookup id ms ≡ some at
      → ltb at observed ≡ true
      → contains id (cleared_by observed ms) ≡ true
  unfolding cleared_by
  contains-cleared_by at [] h early = absurd cc
  contains-cleared_by at ((j, t) ∷ ms) h early = elim (Bool-cases (j == id)) [
    | inl same ↦ let e : some t ≡ some at = ground arith in ground (arith, e)
    | inr other ↦ ground (arith, contains-cleared_by at ms)
  ]

-- A good notice has its models marked, and its sample then clears the marks.
finish_unload-ok :
    (w : World) (n : Notice) (r : Router)
    → n.err ≡ none
    → let t =
        apply_observation w n.sample
          (record r { residual_after = mark_all n.ids n.at r.residual_after }) in
      ((finish_unload w n r).residual_after ≡ t.residual_after)
      × ((finish_unload w n r).reserved ≡ t.reserved)
unfolding finish_unload scheduled
finish_unload-ok w n r good = (ground arith, ground arith)

residual_held-listed :
    (ids : List ℕ) (id : ℕ) (m : Model) (o : Option Model) (old : Option ℕ)
    → o ≡ some m
    → contains id ids ≡ true
    → residual_held ids id o old ≡ some m.residual
unfolding residual_held
residual_held-listed ids id m none old e h = absurd cc
residual_held-listed ids id m (some m') old e h = ground (arith, e)

module _ (w : World) (n : Notice) (r : Router) (id : ℕ) where
  finish_unload-cleared :
      (device : ℕ) (m : Model)
      → n.err ≡ none
      → is_later device n.at n.sample ≡ true
      → (device == r.device) ≡ true
      → contains id n.ids ≡ true
      → lookup id r.models ≡ some m
      → let t = finish_unload w n r in
        (lookup id t.residual_after ≡ none) × (t.reserved id ≡ some m.residual)
  finish_unload-cleared device m good later same listed known =
      let ms = mark_all n.ids n.at r.residual_after in
      let r' : Router = record r { residual_after = ms } in
      let early : ltb n.at n.sample.observed_at ≡ true = ground arith in
      let (_, left, held) =
        apply_observation-Observed w n.sample r' (ground arith) (ground arith) in
      let (marks, kept) = finish_unload-ok w n r good in
      let all_early =
        mark_all-is_early id n.sample.observed_at n.ids n.at r.residual_after early
          (ground arith) in
      let marked =
        lookup-mark_all id n.sample.observed_at n.ids n.at r.residual_after (inl listed) in
      let cleared = contains-cleared_by id n.sample.observed_at n.at ms marked early in
      (
        ap (lookup id) (marks ∙ left) ∙ kept_by-is_early id n.sample.observed_at ms all_early,
        ap (λ f. f id) kept
            ∙ (held id
                ∙ residual_held-listed _ id m (lookup id r.models) (r.reserved id) known cleared),
      )

-- A notice of StartUnload without an error rests, for each of its models that has a runtime, on a
-- round in which the model was idle and on a Stop without an error. At least one of them has a runtime,
-- and the notice rests on a valid sample of the device that the observer gave and that is later than
-- the return of the last Stop. Once the loop has taken such a notice, a configured model of it has no
-- residual marker, and its reservation is its residual.
pub unload_cleared :
    (j : Job) (fuel : ℕ) (ids : List ℕ) (deadline : ℕ) (n : Notice) (w : World) (r : Router)
    (id : ℕ) (m : Model)
    → start_unload j fuel ids deadline ≡ notice n
    → n.err ≡ none
    → (j.device == r.device) ≡ true
    → contains id ids ≡ true
    → lookup id r.models ≡ some m
    → let t = finish_unload w n r in
      IsProved j ids n × (lookup id t.residual_after ≡ none) × (t.reserved id ≡ some m.residual)
unload_cleared j fuel ids deadline n w r id m sent good same listed known =
    let p = start_unload-IsProved j fuel ids deadline n sent good in
    let here : contains id n.ids ≡ true = ap (contains id) p.whole ∙ listed in
    let (unmarked, held) =
      finish_unload-cleared w n r id j.device m good p.sampled.1 same here known in
    (p, unmarked, held)
