-- ===== src/Router/Budget.antt =====
-- internal/router/budget.go: which loads the GPU budget admits, and which model has to go.
use infer_swap.Common.{
  ℕ, Bool, true, false, not, ◌&&◌, ◌||◌, Option, none, some, List, [], ◌∷◌, ◌==◌, ltb,
  if◌then◌else◌, lookup, update,
}
use infer_swap.Wire.{State, is_ready}
use infer_swap.Resource.Admit.{Hold, fits, fresh}
use infer_swap.Sched.Types.{
  Error, not_booted, resources, model_not_found, shutdown, sched, Decision, evicts, refused,
}
use infer_swap.Router.State.{Model, load_bound, World, Router, model_state}

unfoldable pub gpu_fresh : World → Router → Bool
gpu_fresh w r = r.boot_gpu && fresh r.snap w.wall_now r.max_age

-- What a state reserves by itself: nothing is known of a failed or an unknown model.
unfoldable pub bound_of_state : Model → State → Option ℕ
bound_of_state m State.ready = some (load_bound m)
bound_of_state m State.starting = some (load_bound m)
bound_of_state m State.stopping = some (load_bound m)
bound_of_state m State.stopped = some m.residual
bound_of_state m _ = none

abbrev pub bind_state : (State → Option ℕ) → Option State → Option ℕ
bind_state f none = none
bind_state f (some st) = f st

abbrev pub or_else : Option ℕ → Option ℕ → Option ℕ
or_else (some b) o = some b
or_else none o = o

unfoldable pub bound_for : World → Router → ℕ → Model → Bool → Option ℕ
unfolding bound_of_state
bound_for w r id m as_load =
    if as_load
    then some (load_bound m)
    else or_else (r.reserved id) (bind_state (bound_of_state m) (model_state w id))

abbrev pub push_hold : ℕ → Option ℕ → Option (List Hold) → Option (List Hold)
push_hold id none rest = none
push_hold id (some b) none = none
push_hold id (some b) (some hs) = some (record { id = id; bound = b; attributed = 0 } ∷ hs)

-- The holds of all models, the target's for its load; `none` where a bound is not known.
unfoldable pub current_holds : World → Router → ℕ → List (ℕ × Model) → Option (List Hold)
unfolding bound_for
current_holds w r target [] = some []
current_holds w r target ((id, m) ∷ ms) =
    push_hold id (bound_for w r id m (id == target)) (current_holds w r target ms)

abbrev pub fits_holds : ℕ → ℕ → Option (List Hold) → Bool
fits_holds free margin none = false
fits_holds free margin (some hs) = fits free margin hs

unfoldable pub fits_now : World → Router → ℕ → Bool
unfolding current_holds
fits_now w r target = fits_holds r.snap.free r.margin (current_holds w r target r.models)

abbrev pub is_marked : Router → ℕ → Bool
is_marked r id = elim (lookup id r.residual_after) [ none ↦ false | some at ↦ true ]

-- A model that could be unloaded holds its residual then.
unfoldable pub residual_of_state : Model → State → Option ℕ
residual_of_state m State.unknown = none
residual_of_state m State.failed = none
residual_of_state m State.shutdown = none
residual_of_state m _ = some m.residual

unfoldable pub rest_bound : World → Router → ℕ → ℕ → Model → Option ℕ
unfolding residual_of_state
rest_bound w r target id m =
    if id == target
    then some (load_bound m)
    else if is_marked r id
    then some (load_bound m)
    else bind_state (residual_of_state m) (model_state w id)

unfoldable pub rest_holds : World → Router → ℕ → List (ℕ × Model) → Option (List Hold)
unfolding rest_bound
rest_holds w r target [] = some []
rest_holds w r target ((id, m) ∷ ms) =
    push_hold id (rest_bound w r target id m) (rest_holds w r target ms)

-- Against the total of the device, since the free bytes leave out the model that would go.
unfoldable pub fits_if_rest_residual : World → Router → ℕ → Bool
unfolding rest_holds
fits_if_rest_residual w r target = fits_holds r.snap.total r.margin (rest_holds w r target r.models)

abbrev pub is_stopped : Option State → Bool
is_stopped (some State.stopped) = true
is_stopped _ = false

abbrev pub is_bound : ℕ → Option ℕ → Bool
is_bound n none = false
is_bound n (some b) = b == n

unfoldable pub at_residual : World → Router → ℕ → Model → Bool
unfolding bound_for
at_residual w r id m =
    not (is_marked r id)
    && is_bound m.residual (bound_for w r id m false)
    && is_stopped (model_state w id)

unfoldable pub others_at_residual : World → Router → ℕ → List (ℕ × Model) → Bool
unfolding at_residual
others_at_residual w r target [] = true
others_at_residual w r target ((id, m) ∷ ms) =
    (id == target || at_residual w r id m) && others_at_residual w r target ms

unfoldable pub admit_without_evict : World → Router → ℕ → Bool
admit_without_evict w r target =
    fits_now w r target
    || (fits_if_rest_residual w r target && others_at_residual w r target r.models)

-- A ready model that may go, with the time of its last use, or else of its load.
pub record Candidate : Type 0 where
  pub id : ℕ
  pub at : ℕ

abbrev pub state_ready : Option State → Bool
state_ready none = false
state_ready (some st) = is_ready st

unfoldable pub use_time : Router → ℕ → ℕ
use_time r id = if r.last_use id == 0 then r.loaded_at id else r.last_use id

unfoldable pub candidates : World → Router → ℕ → List ℕ → List Candidate
unfolding use_time
candidates w r target [] = []
candidates w r target (id ∷ ids) =
    let rest = candidates w r target ids in
    if id == target || not (state_ready (model_state w id))
    then rest
    else record { id = id; at = use_time r id } ∷ rest

-- The order of the sort: by time, then by id.
unfoldable pub before : Candidate → Candidate → Bool
before a b = if a.at == b.at then ltb a.id b.id else ltb a.at b.at

-- The first of the sorted candidates.
unfoldable pub oldest : List Candidate → Option Candidate
unfolding before
oldest [] = none
oldest (c ∷ cs) = elim (oldest cs) [
  | none ↦ some c
  | some d ↦ if before d c then some d else some c
]

unfoldable pub oldest_resident : World → Router → List ℕ → ℕ → Option Candidate
oldest_resident w r running target = oldest (candidates w r target running)

unfoldable pub evict_oldest : Option Candidate → Decision
evict_oldest none = refused (sched resources)
evict_oldest (some c) = if c.id == 0 then refused (sched resources) else evicts (c.id ∷ [])

unfoldable pub decide : World → Router → ℕ → List ℕ → Decision
unfolding evict_oldest
decide w r target running =
    if state_ready (model_state w target)
    then evicts []
    else if not (gpu_fresh w r)
    then refused (sched not_booted)
    else if admit_without_evict w r target
    then evicts []
    else if not (fits_if_rest_residual w r target)
    then refused (sched resources)
    else evict_oldest (oldest_resident w r running target)

abbrev pub victims_of : Decision → List ℕ
victims_of (evicts ids) = ids
victims_of (refused err) = []

unfoldable pub eviction_for : World → Router → ℕ → List ℕ → List ℕ
eviction_for w r target running = victims_of (decide w r target running)

unfoldable pub reserve : ℕ → ℕ → Router → Router
reserve id bytes r = record r { reserved = update r.reserved id (some bytes) }

unfoldable pub reserve_load : ℕ → Option Model → Router → Router × Option Error
unfolding reserve
reserve_load id none r = (r, some model_not_found)
reserve_load id (some m) r = (record (reserve id (load_bound m) r) { load_serial = id }, none)

-- `admitLoad`: the error, or the reservation for the load.
unfoldable pub admit_load : World → ℕ → Router → Router × Option Error
unfolding reserve_load
admit_load w id r =
    if r.shutting
    then (r, some shutdown)
    else if not (gpu_fresh w r)
    then (r, some not_booted)
    else if not (r.load_serial == 0) && not (r.load_serial == id)
    then (r, some resources)
    else if not (admit_without_evict w r id)
    then (r, some resources)
    else reserve_load id (lookup id r.models) r

unfoldable pub note_use : World → ℕ → Router → Router
note_use w id r = record r { last_use = update r.last_use id w.now }

unfoldable pub note_recovered_ready : World → ℕ → Router → Router
note_recovered_ready w id r = record r {
  loaded_at =
      if r.loaded_at id == 0 && r.last_use id == 0
      then update r.loaded_at id w.now
      else r.loaded_at;
}

unfoldable pub reserve_known : ℕ → (Model → ℕ) → Option Model → Router → Router
unfolding reserve
reserve_known id bytes none r = r
reserve_known id bytes (some m) r = reserve id (bytes m) r

unfoldable pub note_loaded : World → ℕ → Router → Router
unfolding reserve_known
note_loaded w id r = reserve_known id load_bound (lookup id r.models) (record r {
  loaded_at = update r.loaded_at id w.now;
  last_use = if r.last_use id == 0 then update r.last_use id w.now else r.last_use;
})

unfoldable pub hold_residual : ℕ → Router → Router
unfolding reserve_known
hold_residual id r = reserve_known id (λ m. m.residual) (lookup id r.models) r
