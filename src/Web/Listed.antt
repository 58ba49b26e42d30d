-- ===== src/Web/Listed.antt =====
-- internal/server/server.go: which models handleModels lists, and what it says of them.
use infer_swap.Common.{
  ℕ, Bool, true, ◌&&◌, ◌||◌, ◌≡◌, refl, ap, ◌∙◌, Option, none, some, List, [], ◌∷◌, ◌==◌, lookup,
  keys, contains, sort_ids, insert_sorted, if◌then◌else◌, arith, Bool-cases, inl, inr,
}
use infer_swap.Wire.{State, Status}
use infer_swap.Web.Listing.{
  Named, Live, Entry, Diagnostics, ModelDiagnostics, entries, handle_models, is_listed, listed,
  entry_of, live_entry, with_remote, newest, blank_entry, diagnostics_of, is_state_ready,
}

contains-insert_sorted :
    (k x : ℕ) (xs : List ℕ) → contains k (insert_sorted x xs) ≡ (x == k || contains k xs)
contains-insert_sorted k x [] = refl
contains-insert_sorted k x (y ∷ ys) = ground (arith, contains-insert_sorted k x ys)

contains-sort_ids : (k : ℕ) (xs : List ℕ) → contains k (sort_ids xs) ≡ contains k xs
contains-sort_ids k [] = refl
contains-sort_ids k (x ∷ xs) =
    contains-insert_sorted k x (sort_ids xs) ∙ ap (λ b. x == k || b) (contains-sort_ids k xs)

-- The field `ready`: nothing of a model without a runtime or of an unknown state.
abbrev pub ready_in : State → Option Bool
ready_in State.unknown = none
ready_in st = some (is_state_ready st)

abbrev pub ready_of : Option Live → Option Bool
ready_of none = none
ready_of (some l) = ready_in l.state

with_remote_frame :
    (o : Option Status) (e : Entry)
    → ((with_remote o e).id ≡ e.id) × ((with_remote o e).ready ≡ e.ready)
with_remote_frame none e = (refl, refl)
with_remote_frame (some st) e = (refl, refl)

live_entry_frame :
    (st : State) (now : Option Status) (md : ModelDiagnostics) (e : Entry)
    → e.ready ≡ none
    → ((live_entry st now md e).id ≡ e.id) × ((live_entry st now md e).ready ≡ ready_in st)
live_entry_frame State.unknown now md e h = (refl, h)
live_entry_frame State.stopped now md e h = with_remote_frame (newest now md.remote) _
live_entry_frame State.starting now md e h = with_remote_frame (newest now md.remote) _
live_entry_frame State.ready now md e h = with_remote_frame (newest now md.remote) _
live_entry_frame State.stopping now md e h = with_remote_frame (newest now md.remote) _
live_entry_frame State.failed now md e h = with_remote_frame (newest now md.remote) _
live_entry_frame State.shutdown now md e h = with_remote_frame (newest now md.remote) _

entry_of_frame :
    (md : ModelDiagnostics) (l : Option Live) (e : Entry)
    → e.ready ≡ none
    → ((entry_of md l e).id ≡ e.id) × ((entry_of md l e).ready ≡ ready_of l)
entry_of_frame md none e h = (refl, h)
entry_of_frame md (some l) e h = live_entry_frame l.state l.status md e h

-- The entry of a model in a list, by its id: what `ready` it has there.
abbrev pub ready_at : ℕ → List Entry → Option (Option Bool)
ready_at k [] = none
ready_at k (e ∷ es) = if e.id == k then some e.ready else ready_at k es

abbrev shown : Option Named → Option Live → Option (Option Bool)
shown o l = if is_listed o then some (ready_of l) else none

ready_at-listed :
    (k id : ℕ) (o : Option Named) (d : Diagnostics) (l : Option Live) (rest : List Entry)
    → ready_at k (listed id o d l rest)
      ≡ (if id == k && is_listed o then some (ready_of l) else ready_at k rest)
ready_at-listed k id none d l rest = ground arith
ready_at-listed k id (some n) d l rest =
    let md = diagnostics_of id d in
    let (same, ready) = entry_of_frame md l (blank_entry id n md) refl in
    elim (Bool-cases n.unlisted) [
      | inl hidden ↦ ground (arith, hidden)
      | inr visible ↦ ground (arith, visible, same, ready)
    ]

module _ (models : List (ℕ × Named)) (d : Diagnostics) (live : ℕ → Option Live) (k : ℕ) where
  ready_at-entries :
      (ids : List ℕ)
      → ready_at k (entries models d live ids)
        ≡ (if contains k ids && is_listed (lookup k models) then some (ready_of (live k)) else none)
  unfolding entries
  ready_at-entries [] = refl
  ready_at-entries (id ∷ ids) =
      let step = ready_at-listed k id (lookup id models) d (live id) (entries models d live ids) in
      elim (Bool-cases (id == k)) [
        | inl same ↦
            let e : id ≡ k = ground arith in
            let found = ap (λ x. is_listed (lookup x models)) e in
            let shows = ap (λ x. ready_of (live x)) e in
            step ∙ ground (arith, same, found, shows, ready_at-entries ids)
        | inr other ↦ step ∙ ground (arith, other, ready_at-entries ids)
      ]

is_listed-contains :
    (models : List (ℕ × Named)) (k : ℕ)
    → is_listed (lookup k models) ≡ true
    → contains k (keys models) ≡ true
is_listed-contains [] k h = absurd cc
is_listed-contains ((j, n) ∷ models) k h = ground (arith, is_listed-contains models k)

-- handleModels lists exactly the models of the configuration that are not unlisted. It says that a
-- model is ready if its runtime is in the ready state, that it is not for any other state but
-- unknown, and nothing for an unknown state or a model without a runtime.
pub ready_at-handle_models :
    (models : List (ℕ × Named)) (d : Diagnostics) (live : ℕ → Option Live) (k : ℕ)
    → ready_at k (handle_models models d live) ≡ shown (lookup k models) (live k)
unfolding handle_models
ready_at-handle_models models d live k =
    let ids = sort_ids (keys models) in
    ready_at-entries models d live k ids ∙ elim (Bool-cases (is_listed (lookup k models))) [
      | inl visible ↦
          ground
            (arith, visible, contains-sort_ids k (keys models), is_listed-contains models k visible)
      | inr hidden ↦ ground (arith, hidden)
    ]
