-- ===== src/Router/Left.antt =====
-- internal/router/base.go: what a Shutdown without an error rests on.
use infer_swap.Common.{
  ℕ, zero, suc, ◌+◌, Bool, true, false, ◌≡◌, ◌≢◌, ◌⊎◌, inl, inr, refl, ap, ◌∙◌, Option, none, some,
  List, [], ◌∷◌, sort_ids, insert_sorted, arith, Bool-cases, Option-cases,
}
use infer_swap.Wire.{State}
use infer_swap.Resource.Admit.{Snapshot}
use infer_swap.Config.Checks.{second}
use infer_swap.Sched.Types.{Fault}
use infer_swap.Router.Unload.{
  Waited, still_waiting, ended, wait_idle, Sampled, got, still_looking, gave_up, sample_until,
  positive_or, drain_budget,
}
use infer_swap.Router.Unloaded.{SawIdle, WasSampled, wait_idle-SawIdle, sample_until-WasSampled}
use infer_swap.Router.Leave.{
  Poll, Leaving, Budget, Left, unfinished, nothing_left, released, unreleased, after_wait_sample,
  after_leave_stop, after_leave_wait, stop_in, wait_unprotected, release_on_shutdown, add_failed,
  failed_of, closed, shutdown_router, is_gone, poll_left, earlier,
}

-- The end of a release that is no error.
abbrev is_good : Left → Bool
is_good nothing_left = true
is_good (released at snap) = true
is_good _ = false

-- A model was seen idle and was stopped without an error, and the observer gave a valid sample of the
-- device that is later than the return of that Stop.
abbrev pub WasReleased : Budget → Leaving → Type 0
WasReleased b l =
    ((k : ℕ) × SawIdle (l.rounds k))
    × (l.stop (positive_or b.shutdown_timeout second) ≡ none)
    × ((snap : Snapshot) × WasSampled b.device l.stopped_at l.looks snap)

-- What the confirmed end of a model rests on: no call protects it, and it is stopped already or released.
abbrev pub IsConfirmed : Budget → Leaving → Type 0
IsConfirmed b l =
    ((k : ℕ) × ((l.polls k).protected ≡ false)) × ((is_gone l.state ≡ true) ⊎ WasReleased b l)

abbrev pub AllConfirmed : Budget → List (ℕ × Leaving) → Type 0
AllConfirmed b [] = Unit {0}
AllConfirmed b ((id, l) ∷ ls) = IsConfirmed b l × AllConfirmed b ls

module _ (b : Budget) (l : Leaving) (fuel : ℕ) where
  after_wait_sample-got :
      (at : ℕ) (s : Sampled)
      → is_good (after_wait_sample at s) ≡ true
      → (snap : Snapshot) × (s ≡ got snap)
  unfolding after_wait_sample
  after_wait_sample-got at still_looking h = absurd cc
  after_wait_sample-got at (got snap) g = (snap, refl)
  after_wait_sample-got at (gave_up e) h = absurd cc

  after_leave_stop-good :
      (answer : Option Fault)
      → is_good (after_leave_stop b l fuel answer) ≡ true
      → (answer ≡ none) × ((snap : Snapshot) × WasSampled b.device l.stopped_at l.looks snap)
  unfolding after_leave_stop
  after_leave_stop-good (some e) h = absurd cc
  after_leave_stop-good none g =
      let until = l.seen_at + drain_budget b.drain_timeout in
      let (snap, e) =
        after_wait_sample-got l.stopped_at (sample_until b.device l.stopped_at until l.looks fuel 0)
          g in
      (refl, (snap, sample_until-WasSampled b.device l.stopped_at until l.looks fuel 0 snap e))

  after_leave_wait-good :
      (r : Waited)
      → is_good (after_leave_wait b l fuel r) ≡ true
      → (r ≡ ended none)
        × (l.stop (positive_or b.shutdown_timeout second) ≡ none)
        × ((snap : Snapshot) × WasSampled b.device l.stopped_at l.looks snap)
  unfolding after_leave_wait
  after_leave_wait-good still_waiting h = absurd cc
  after_leave_wait-good (ended (some e)) h = absurd cc
  after_leave_wait-good (ended none) g =
      let (stopped, sampled) =
        after_leave_stop-good (l.stop (positive_or b.shutdown_timeout second)) g in
      (refl, stopped, sampled)

  stop_in-good :
      (deadline : ℕ) (st : State)
      → is_good (stop_in b l fuel deadline st) ≡ true
      → (is_gone st ≡ true) ⊎ WasReleased b l
  unfolding stop_in
  stop_in-good deadline State.stopped g = inl refl
  stop_in-good deadline State.shutdown g = inl refl
  stop_in-good deadline State.ready g =
      let (idle, stopped, sampled) = after_leave_wait-good (wait_idle deadline l.rounds fuel 0) g in
      inr (wait_idle-SawIdle deadline l.rounds fuel 0 idle, stopped, sampled)
  stop_in-good deadline State.unknown g = absurd cc
  stop_in-good deadline State.failed g = absurd cc
  stop_in-good deadline State.starting g = absurd cc
  stop_in-good deadline State.stopping g = absurd cc

  poll_good :
      (deadline : ℕ) (p : Poll) (next rest : Left)
      → is_good (poll_left deadline p next rest) ≡ true
      → ((p.protected ≡ false) × (is_good next ≡ true)) ⊎ (is_good rest ≡ true)
  unfolding poll_left
  poll_good deadline p next rest g = elim (Bool-cases p.protected) [
    | inl busy ↦ inr (ground arith)
    | inr free ↦ inl (free, ground arith)
  ]

  wait_unprotected-good :
      (deadline : ℕ) (next : Left) (n i : ℕ)
      → is_good (wait_unprotected deadline l.polls next n i) ≡ true
      → ((k : ℕ) × ((l.polls k).protected ≡ false)) × (is_good next ≡ true)
  unfolding wait_unprotected
  wait_unprotected-good deadline next zero i g = absurd cc
  wait_unprotected-good deadline next (suc n) i g =
      elim (poll_good deadline (l.polls i) next (wait_unprotected deadline l.polls next n (suc i))
        g) [
          | inl (free, good) ↦ ((i, free), good)
          | inr later ↦ wait_unprotected-good deadline next n (suc i) later
        ]

  release_on_shutdown-IsConfirmed : is_good (release_on_shutdown b l fuel) ≡ true → IsConfirmed b l
  unfolding release_on_shutdown
  release_on_shutdown-IsConfirmed g =
      let deadline = earlier l.ends_at (l.now + drain_budget b.drain_timeout) in
      let next = stop_in b l fuel deadline l.state in
      let waited : is_good (wait_unprotected deadline l.polls next fuel 0) ≡ true = ground arith in
      let (free, good) = wait_unprotected-good deadline next fuel 0 waited in
      (free, stop_in-good deadline l.state good)

-- A list of failures that is empty.
add_failed-nil :
    (id : ℕ) (x : Left) (rest : Option (List ℕ))
    → add_failed id x rest ≡ some []
    → (is_good x ≡ true) × (rest ≡ some [])
unfolding add_failed
add_failed-nil id unfinished rest h = absurd cc
add_failed-nil id (unreleased e) none h = absurd cc
add_failed-nil id (unreleased e) (some failed) h = absurd cc
add_failed-nil id nothing_left rest h = (refl, h)
add_failed-nil id (released at snap) rest h = (refl, h)

failed_of-AllConfirmed :
    (b : Budget) (fuel : ℕ) (ls : List (ℕ × Leaving))
    → failed_of b fuel ls ≡ some []
    → AllConfirmed b ls
unfolding failed_of
failed_of-AllConfirmed b fuel [] h = tt
failed_of-AllConfirmed b fuel ((id, l) ∷ ls) h =
    let (good, rest) = add_failed-nil id (release_on_shutdown b l fuel) (failed_of b fuel ls) h in
    (release_on_shutdown-IsConfirmed b l fuel good, failed_of-AllConfirmed b fuel ls rest)

insert_sorted-cons : (x : ℕ) (xs : List ℕ) → insert_sorted x xs ≢ []
insert_sorted-cons x [] h = cc
insert_sorted-cons x (y ∷ ys) h = ground arith

sort_ids-nil : (xs : List ℕ) → sort_ids xs ≡ [] → xs ≡ []
sort_ids-nil [] h = refl
sort_ids-nil (x ∷ xs) h = absurd (insert_sorted-cons x (sort_ids xs) h)

-- A Shutdown that ends without an error has gone through all the models: none is protected by a call,
-- and each was stopped or shut down already, or it was seen idle, its Stop returned no error, and one
-- of the samples that the observer then gave for it is valid, of the device, and later than the return of
-- that Stop.
pub shutdown_router-AllConfirmed :
    (b : Budget) (fuel : ℕ) (taken loop_ended : Bool) (ls : List (ℕ × Leaving)) (reported : List ℕ)
    → shutdown_router b fuel taken loop_ended ls ≡ some (reported, closed [])
    → AllConfirmed b ls
unfolding shutdown_router
shutdown_router-AllConfirmed b fuel false loop_ended ls reported h = absurd cc
shutdown_router-AllConfirmed b fuel true false ls reported h =
    elim (Option-cases (failed_of b fuel ls)) [
      | inl o ↦ absurd (ground (arith, h))
      | inr (failed, o) ↦ absurd (ground (arith, h))
    ]
shutdown_router-AllConfirmed b fuel true true ls reported h =
    elim (Option-cases (failed_of b fuel ls)) [
      | inl o ↦ absurd (ground (arith, h))
      | inr (failed, o) ↦
          let nothing : sort_ids failed ≡ [] = ground (arith, h) in
          failed_of-AllConfirmed b fuel ls (o ∙ ap some (sort_ids-nil failed nothing))
    ]
