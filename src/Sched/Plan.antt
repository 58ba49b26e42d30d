-- ===== src/Sched/Plan.antt =====
-- internal/router/scheduler/recover.go: which models planRecovery probes, and in which order.
use infer_swap.Common.{
  ℕ, ◌≤◌, Option, none, some, lookup, Option-cases, Bool, true, false, not, ◌&&◌, ◌||◌, ◌≡◌, refl,
  ap, ◌∙◌, List, [], ◌∷◌, ◌==◌, leb, arith, if-cases, contains, keep, remove, insert_sorted,
  sort_ids, keys, if◌then◌else◌, Bool-cases, inl, inr,
}
use infer_swap.Wire.{State}
use infer_swap.Sched.Types.{RecoveryFacts}
use infer_swap.Sched.Probe.{wants_probe, plan_recovery}

contains-insert_sorted :
    (j k : ℕ) (xs : List ℕ) → contains j (insert_sorted k xs) ≡ (k == j || contains j xs)
contains-insert_sorted j k [] = refl
contains-insert_sorted j k (x ∷ xs) = ground (arith, contains-insert_sorted j k xs)

contains-sort_ids : (j : ℕ) (xs : List ℕ) → contains j (sort_ids xs) ≡ contains j xs
contains-sort_ids j [] = refl
contains-sort_ids j (x ∷ xs) =
    contains-insert_sorted j x (sort_ids xs) ∙ ap (λ b. x == j || b) (contains-sort_ids j xs)

contains-keep :
    (p : ℕ → Bool) (j : ℕ) (xs : List ℕ) → contains j (keep p xs) ≡ (contains j xs && p j)
contains-keep p j [] = refl
contains-keep p j (x ∷ xs) = elim (Bool-cases (x == j)) [
  | inl same ↦ let e : x ≡ j = ground arith in ground (arith, contains-keep p j xs, ap p e)
  | inr other ↦ ground (arith, contains-keep p j xs)
]

-- A list whose head is a given least element, or more.
abbrev pub is_ordered : ℕ → List ℕ → Bool
is_ordered low [] = true
is_ordered low (x ∷ xs) = leb low x && is_ordered x xs

insert_sorted_ordered :
    (low k : ℕ) (xs : List ℕ)
    → low ≤ k
    → is_ordered low xs ≡ true
    → is_ordered low (insert_sorted k xs) ≡ true
insert_sorted_ordered low k [] l h = ground arith
insert_sorted_ordered low k (x ∷ xs) l h = ground (arith, insert_sorted_ordered x k xs)

sort_ids_ordered : (xs : List ℕ) → is_ordered 0 (sort_ids xs) ≡ true
sort_ids_ordered [] = refl
sort_ids_ordered (x ∷ xs) =
    insert_sorted_ordered 0 x (sort_ids xs) (omega arith) (sort_ids_ordered xs)

contains_same : (j k : ℕ) (xs : List ℕ) → (j == k) ≡ true → contains j xs ≡ contains k xs
contains_same j k xs h = let e : j ≡ k = ground arith in ap (λ x. contains x xs) e

-- The target in front of the others in their order.
abbrev target_first : ℕ → List ℕ → List ℕ
target_first target want =
    if contains target want then target ∷ sort_ids (remove target want) else sort_ids want

contains-target_first :
    (target j : ℕ) (want : List ℕ) → contains j (target_first target want) ≡ contains j want
contains-target_first target j want =
    if-cases (λ (xs : List ℕ). contains j xs ≡ contains j want) (contains target want)
      (λ h. ground (
        arith,
        contains-sort_ids j (remove target want),
        contains-keep (λ x. not (x == target)) j want,
        contains_same target j want,
      ))
      (λ _. contains-sort_ids j want)

-- The models that a plan wants to probe.
abbrev wanted : RecoveryFacts → (ℕ → Bool) → List ℕ
wanted facts unload_fail =
    keep (λ id. wants_probe facts unload_fail id && not (facts.markers id))
      (sort_ids (keys facts.states))

plan_recovery-wants_probe :
    (target : ℕ) (facts : RecoveryFacts) (unload_fail : ℕ → Bool) (j : ℕ)
    → let plan = plan_recovery target facts unload_fail in
      let known = contains j (keys facts.states) in
      (contains j plan.status
        ≡ (known && (wants_probe facts unload_fail j && not (facts.markers j))))
      × (contains j plan.samples ≡ (known && facts.markers j))
unfolding plan_recovery
plan_recovery-wants_probe target facts unload_fail j =
    let ids = sort_ids (keys facts.states) in
    let known = contains-sort_ids j (keys facts.states) in
    (
      contains-target_first target j (wanted facts unload_fail)
          ∙ (contains-keep (λ id. wants_probe facts unload_fail id && not (facts.markers id)) j ids
              ∙ ap (λ b. b && (wants_probe facts unload_fail j && not (facts.markers j))) known),
      contains-keep facts.markers j ids ∙ ap (λ b. b && facts.markers j) known,
    )

-- Whether a model in a state is uncertain: it has failed or is unknown, or its last unload has failed,
-- unless it is starting in a load that is under way. `load` and `fail` say the latter two.
abbrev pub is_uncertain : Bool → Bool → State → Bool
is_uncertain load fail State.failed = true
is_uncertain load fail State.unknown = true
is_uncertain load fail State.starting = fail && not load
is_uncertain load fail State.ready = fail
is_uncertain load fail State.stopping = fail
is_uncertain load fail State.stopped = fail
is_uncertain load fail State.shutdown = fail

wants_probe-is_uncertain :
    (facts : RecoveryFacts) (unload_fail : ℕ → Bool) (j : ℕ) (st : State)
    → lookup j facts.states ≡ some st
    → wants_probe facts unload_fail j ≡ is_uncertain (facts.in_flight j) (unload_fail j) st
unfolding wants_probe
wants_probe-is_uncertain facts unload_fail j State.failed e = ground (arith, e)
wants_probe-is_uncertain facts unload_fail j State.unknown e = ground (arith, e)
wants_probe-is_uncertain facts unload_fail j State.starting e = ground (arith, e)
wants_probe-is_uncertain facts unload_fail j State.ready e = ground (arith, e)
wants_probe-is_uncertain facts unload_fail j State.stopping e = ground (arith, e)
wants_probe-is_uncertain facts unload_fail j State.stopped e = ground (arith, e)
wants_probe-is_uncertain facts unload_fail j State.shutdown e = ground (arith, e)

lookup-keys :
    (j : ℕ) (st : State) (sts : List (ℕ × State))
    → lookup j sts ≡ some st
    → contains j (keys sts) ≡ true
lookup-keys j st [] e = absurd cc
lookup-keys j st ((k, s) ∷ sts) e = ground (arith, lookup-keys j st sts)

missing-keys :
    (j : ℕ) (sts : List (ℕ × State)) → lookup j sts ≡ none → contains j (keys sts) ≡ false
missing-keys j [] e = refl
missing-keys j ((k, s) ∷ sts) e = ground (arith, missing-keys j sts)

-- What a plan is to say of a model, by its state if it is known: whether it is probed, and whether a
-- sample is waited for.
abbrev pub probed_when : Bool → Bool → Bool → Option State → Bool
probed_when load fail marked none = false
probed_when load fail marked (some st) = is_uncertain load fail st && not marked

abbrev pub sampled_when : Bool → Option State → Bool
sampled_when marked none = false
sampled_when marked (some st) = marked

-- A plan probes exactly the known models that have no residual marker and that have failed, are
-- unknown, or have a failed unload and are not starting in a load under way. It waits for a sample
-- for exactly the known models that have a marker.
pub plan_recovery_covers :
    (target : ℕ) (facts : RecoveryFacts) (unload_fail : ℕ → Bool) (j : ℕ)
    → let plan = plan_recovery target facts unload_fail in
      let st = lookup j facts.states in
      (contains j plan.status
        ≡ probed_when (facts.in_flight j) (unload_fail j) (facts.markers j) st)
      × (contains j plan.samples ≡ sampled_when (facts.markers j) st)
plan_recovery_covers target facts unload_fail j =
    let (status, samples) = plan_recovery-wants_probe target facts unload_fail j in
    elim (Option-cases (lookup j facts.states)) [
      | inl o ↦
          let gone = missing-keys j facts.states o in
          (ground (arith, status, gone, o), ground (arith, samples, gone, o))
      | inr (st, o) ↦
          let known = lookup-keys j st facts.states o in
          let test = wants_probe-is_uncertain facts unload_fail j st o in
          (ground (arith, status, known, test, o), ground (arith, samples, known, o))
    ]

-- A list with the target in front, if it holds the target at all, and the others in their order.
abbrev pub TargetFirst : ℕ → List ℕ → Type 0
TargetFirst target xs =
    (rest : List ℕ) × (xs ≡ (if contains target xs then target ∷ rest else rest))
    × (is_ordered 0 rest ≡ true)
    × (contains target rest ≡ false)

target_first-TargetFirst :
    (target : ℕ) (want : List ℕ) → TargetFirst target (target_first target want)
target_first-TargetFirst target want =
    if-cases (TargetFirst target) (contains target want)
      (λ h.
        let rest = sort_ids (remove target want) in
        (
          rest,
          ground arith,
          sort_ids_ordered (remove target want),
          ground (
            arith,
            contains-sort_ids target (remove target want),
            contains-keep (λ x. not (x == target)) target want,
          ),
        ))
      (λ h.
        let gone : contains target (sort_ids want) ≡ false = contains-sort_ids target want ∙ h in
        (sort_ids want, ground (arith, gone), sort_ids_ordered want, gone))

-- The order of a plan: the target, if it is to be probed, and then the others by their ids.
pub plan_recovery-TargetFirst :
    (target : ℕ) (facts : RecoveryFacts) (unload_fail : ℕ → Bool)
    → TargetFirst target (plan_recovery target facts unload_fail).status
unfolding plan_recovery
plan_recovery-TargetFirst target facts unload_fail =
    target_first-TargetFirst target (wanted facts unload_fail)
