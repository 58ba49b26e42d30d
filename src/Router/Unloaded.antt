-- ===== src/Router/Unloaded.antt =====
-- internal/router/base.go: what the loops waitIdle and sampleAfter rest on, and when they end.
use infer_swap.Common.{
  ℕ, zero, suc, ◌+◌, ◌*◌, ◌≤◌, true, ◌≡◌, ◌≢◌, ◌⊎◌, inl, inr, refl, ap, Option, none, some, arith,
  Bool-cases,
}
use infer_swap.Wire.{Status}
use infer_swap.Resource.Admit.{Snapshot}
use infer_swap.Config.Checks.{second}
use infer_swap.Router.Unload.{
  Round, Waited, still_waiting, ended, after_status, wait_idle, is_idle, Look, Sampled, got,
  is_later, look_at, after_look, sample_until,
}

-- A round in which the status says that nothing runs.
abbrev pub SawIdle : Round → Type 0
SawIdle r = (st : Status) × (r.answer ≡ some st) × (is_idle st ≡ true)

after_status-ended :
    (deadline : ℕ) (r : Round) (a : Option Status) (rest : Waited)
    → after_status deadline r a rest ≡ ended none
    → ((st : Status) × (a ≡ some st) × (is_idle st ≡ true)) ⊎ (rest ≡ ended none)
unfolding after_status
after_status-ended deadline r none rest h = cc
after_status-ended deadline r (some st) rest h = elim (Bool-cases (is_idle st)) [
  | inl idle ↦ inl (st, refl, idle)
  | inr moving ↦ inr (ground arith)
]

-- waitIdle returns without an error only on a round that saw the model idle.
pub wait_idle-SawIdle :
    (deadline : ℕ) (rounds : ℕ → Round) (fuel i : ℕ)
    → wait_idle deadline rounds fuel i ≡ ended none
    → (k : ℕ) × SawIdle (rounds k)
unfolding wait_idle
wait_idle-SawIdle deadline rounds zero i h = cc
wait_idle-SawIdle deadline rounds (suc fuel) i h =
    let step : after_status deadline (rounds i) (rounds i).answer
          (wait_idle deadline rounds fuel (suc i))
        ≡ ended none =
      ground arith in
    elim (after_status-ended deadline (rounds i) (rounds i).answer _ step) [
      | inl saw ↦ (i, saw)
      | inr later ↦ wait_idle-SawIdle deadline rounds fuel (suc i) later
    ]

-- The wall clock: a status takes no negative time, and a wait lasts a second or up to the deadline.
abbrev pub Waits : ℕ → (ℕ → Round) → Type 0
Waits deadline rounds =
    (i : ℕ)
    → ((rounds i).now ≤ (rounds i).later)
      × (((rounds i).later + second ≤ (rounds (suc i)).now) ⊎ (deadline ≤ (rounds (suc i)).now))

after_status-still :
    (deadline : ℕ) (r : Round) (a : Option Status) (rest : Waited)
    → after_status deadline r a rest ≡ still_waiting
    → rest ≡ still_waiting
unfolding after_status
after_status-still deadline r none rest h = cc
after_status-still deadline r (some st) rest h = ground arith

wait_idle-next :
    (deadline : ℕ) (rounds : ℕ → Round) (fuel i : ℕ)
    → wait_idle deadline rounds (suc fuel) i ≡ still_waiting
    → wait_idle deadline rounds fuel (suc i) ≡ still_waiting
unfolding wait_idle
wait_idle-next deadline rounds fuel i e =
    let step : after_status deadline (rounds i) (rounds i).answer
          (wait_idle deadline rounds fuel (suc i))
        ≡ still_waiting =
      ground arith in
    after_status-still deadline (rounds i) (rounds i).answer _ step

-- waitIdle ends, unless Status itself never does: with n seconds or fewer to its deadline it takes
-- at most n + 1 rounds.
pub wait_idle_ends :
    (deadline : ℕ) (rounds : ℕ → Round) (n i : ℕ)
    → Waits deadline rounds
    → deadline ≤ (rounds i).now + n * second
    → wait_idle deadline rounds (suc n) i ≢ still_waiting
unfolding wait_idle
wait_idle_ends deadline rounds zero i w h e = ground arith
wait_idle_ends deadline rounds (suc n) i w h e =
    let (order, gap) = w i in
    let time : deadline ≤ (rounds (suc i)).now + n * second = elim gap [
      | inl a_second ↦ omega (arith, order, a_second, h)
      | inr over ↦ omega (arith, over)
    ] in
    wait_idle_ends deadline rounds n (suc i) w time (wait_idle-next deadline rounds (suc n) i e)

look_at-got :
    (device after deadline : ℕ) (l : Look) (a : Option Snapshot) (rest : Sampled) (snap : Snapshot)
    → look_at device after deadline l a rest ≡ got snap
    → ((a ≡ some snap) × (is_later device after snap ≡ true)) ⊎ (rest ≡ got snap)
unfolding look_at after_look
look_at-got device after deadline l none rest snap h = inr (ground arith)
look_at-got device after deadline l (some s) rest snap h =
    elim (Bool-cases (is_later device after s)) [
      | inl later ↦
          let e : s ≡ snap = ground arith in
          inl (ap some e, ground (arith, ap (is_later device after) e))
      | inr early ↦ inr (ground arith)
    ]

-- A sample that the observer gave in some round, and that is later than a time.
abbrev pub WasSampled : ℕ → ℕ → (ℕ → Look) → Snapshot → Type 0
WasSampled device after looks snap =
    ((k : ℕ) × ((looks k).answer ≡ some snap)) × (is_later device after snap ≡ true)

pub sample_until-WasSampled :
    (device after deadline : ℕ) (looks : ℕ → Look) (fuel i : ℕ) (snap : Snapshot)
    → sample_until device after deadline looks fuel i ≡ got snap
    → WasSampled device after looks snap
unfolding sample_until
sample_until-WasSampled device after deadline looks zero i snap h = absurd cc
sample_until-WasSampled device after deadline looks (suc fuel) i snap h =
    elim (look_at-got device after deadline (looks i) (looks i).answer _ snap h) [
      | inl (said, later) ↦ ((i, said), later)
      | inr rest ↦ sample_until-WasSampled device after deadline looks fuel (suc i) snap rest
    ]
