-- ===== src/Router/Proved.antt =====
-- internal/router/base.go: what a notice of StartUnload without an error rests on.
use infer_swap.Common.{
  ℕ, ◌+◌, true, false, ◌≡◌, ◌∙◌, inl, inr, refl, sym, ap, subst, Option, none, some, List, [], ◌∷◌,
  ◌==◌, arith, contains, if◌then◌else◌, Bool-cases,
}
use infer_swap.Sched.Types.{Fault}
use infer_swap.Router.Loop.{Notice}
use infer_swap.Router.Unload.{
  Waited, still_waiting, ended, wait_idle, Sampled, got, still_looking, gave_up, sample_until, Job,
  Site, Each, each, unfinished, after_stop, after_wait, unload_each, stop_budget, notice,
  after_sample, after_each, start_unload, drain_budget, failed_notice, incomplete,
}
use infer_swap.Router.Unloaded.{SawIdle, wait_idle-SawIdle, WasSampled, sample_until-WasSampled}

-- What a model that has been unloaded went through: it was seen idle, and Stop returned no error.
abbrev pub WasStopped : Job → ℕ → Type 0
WasStopped j id =
    (k : ℕ) × SawIdle ((j.site id).rounds k)
    × ((j.site id).stop (stop_budget (j.site id).timeout j.unload_timeout) ≡ none)

after_wait-none :
    (r : Waited) (stop : Option Fault) (at : ℕ) (rest : Each) (done : ℕ)
    → after_wait r stop at rest ≡ each none done
    → (r ≡ ended none) × (stop ≡ none) × (rest ≡ each none done)
unfolding after_wait after_stop
after_wait-none still_waiting stop at rest done h = cc
after_wait-none (ended (some e)) stop at rest done h = cc
after_wait-none (ended none) (some e) at rest done h = cc
after_wait-none (ended none) none at rest done h = (refl, refl, h)

unload_each-WasStopped :
    (j : Job) (deadline fuel : ℕ) (ids : List ℕ) (at done : ℕ)
    → unload_each j deadline fuel ids at ≡ each none done
    → (id : ℕ) → contains id ids ≡ true
    → (j.site id).known ≡ true
    → WasStopped j id
unfolding unload_each
unload_each-WasStopped j deadline fuel [] at done h id listed known = cc
unload_each-WasStopped j deadline fuel (x ∷ ids) at done h id listed known =
    elim (Bool-cases (j.site x).known) [
      | inl here ↦
          let s = j.site x in
          let step : after_wait (wait_idle deadline s.rounds fuel 0)
                (s.stop (stop_budget s.timeout j.unload_timeout)) at
                (unload_each j deadline fuel ids s.stopped_at)
              ≡ each none done =
            ground arith in
          let (idle, stopped, rest) = after_wait-none _ _ at _ done step in
          elim (Bool-cases (x == id)) [
            | inl same ↦
                let (k, saw) = wait_idle-SawIdle deadline s.rounds fuel 0 idle in
                let e : x ≡ id = ground arith in subst (WasStopped j) e (k, saw, stopped)
            | inr other ↦
                unload_each-WasStopped j deadline fuel ids s.stopped_at done rest id (ground arith)
                  known
          ]
      | inr gone ↦ elim (Bool-cases (x == id)) [
        | inl same ↦
            let e : x ≡ id = ground arith in
            absurd (ground (arith, known, subst (λ y. (j.site y).known ≡ false) e gone))
        | inr other ↦
            unload_each-WasStopped j deadline fuel ids at done (ground arith) id (ground arith)
              known
      ]
    ]

-- When the last of the Stops returned, of the models that have a runtime.
abbrev pub stop_before : Site → Option ℕ → Option ℕ
stop_before s (some at) = some at
stop_before s none = if s.known then some s.stopped_at else none

abbrev pub last_stop : Job → List ℕ → Option ℕ
last_stop j [] = none
last_stop j (id ∷ ids) = stop_before (j.site id) (last_stop j ids)

abbrev stop_or : ℕ → Option ℕ → ℕ
stop_or at none = at
stop_or at (some t) = t

stop_before_known :
    (s : Site) (at : ℕ) (o : Option ℕ)
    → s.known ≡ true
    → stop_or at (stop_before s o) ≡ stop_or s.stopped_at o
stop_before_known s at none h = ground arith
stop_before_known s at (some t) h = refl

stop_before_unknown : (s : Site) (o : Option ℕ) → s.known ≡ false → stop_before s o ≡ o
stop_before_unknown s none h = ground arith
stop_before_unknown s (some t) h = refl

unload_each-last_stop :
    (j : Job) (deadline fuel : ℕ) (ids : List ℕ) (at done : ℕ)
    → unload_each j deadline fuel ids at ≡ each none done
    → done ≡ stop_or at (last_stop j ids)
unfolding unload_each
unload_each-last_stop j deadline fuel [] at done h = ground (arith, h)
unload_each-last_stop j deadline fuel (x ∷ ids) at done h =
    let s = j.site x in
    elim (Bool-cases s.known) [
      | inl here ↦
          let step : after_wait (wait_idle deadline s.rounds fuel 0)
                (s.stop (stop_budget s.timeout j.unload_timeout)) at
                (unload_each j deadline fuel ids s.stopped_at)
              ≡ each none done =
            ground arith in
          let (_, _, rest) = after_wait-none _ _ at _ done step in
          unload_each-last_stop j deadline fuel ids s.stopped_at done rest
          ∙ sym (stop_before_known s at (last_stop j ids) here)
      | inr gone ↦
          unload_each-last_stop j deadline fuel ids at done (ground arith)
          ∙ ap (stop_or at) (sym (stop_before_unknown s (last_stop j ids) gone))
    ]

stop_or-some : (o : Option ℕ) (at : ℕ) → at ≡ stop_or 0 o → (at == 0) ≡ false → o ≡ some at
stop_or-some none at e h = absurd (ground (arith, e, h))
stop_or-some (some t) at e h = ap some (sym e)

-- What a notice without an error rests on. Its sample is one that the observer gave, and it is later
-- than the return of the last Stop.
pub record IsProved (j : Job) (ids : List ℕ) (n : Notice) : Type 0 where
  pub whole : n.ids ≡ ids
  pub last : last_stop j ids ≡ some n.at
  pub sampled : WasSampled j.device n.at j.looks n.sample
  pub stopped : (id : ℕ) → contains id ids ≡ true → (j.site id).known ≡ true → WasStopped j id

module _ (ids : List ℕ) (n : Notice) (good : n.err ≡ none) where
  after_sample-got :
      (at : ℕ) (s : Sampled)
      → after_sample ids at s ≡ notice n
      → (n.ids ≡ ids) × (n.at ≡ at) × (s ≡ got n.sample)
  unfolding after_sample
  after_sample-got at still_looking h = cc
  after_sample-got at (got snap) h = (cc, cc, cc)
  after_sample-got at (gave_up e) h = absurd cc

  after_each-none :
      (j : Job) (fuel : ℕ) (e : Each)
      → after_each j fuel ids e ≡ notice n
      → (e ≡ each none n.at)
        × (n.ids ≡ ids)
        × ((n.at == 0) ≡ false)
        × WasSampled j.device n.at j.looks n.sample
  unfolding after_each
  after_each-none j fuel unfinished h = cc
  after_each-none j fuel (each (some e) at) h = absurd cc
  after_each-none j fuel (each none at) h = elim (Bool-cases (at == 0)) [
    | inl never ↦
        let bad : notice (failed_notice ids incomplete 0) ≡ notice n = ground arith in absurd cc
    | inr once ↦
        let until = j.seen_at + drain_budget j.drain_timeout in
        let (whole, same, sampled) =
          after_sample-got at (sample_until j.device at until j.looks fuel 0) (ground arith) in
        let later = sample_until-WasSampled j.device at until j.looks fuel 0 n.sample sampled in
        (
          ap (each none) (sym same),
          whole,
          ap (λ t. t == 0) same ∙ once,
          subst (λ t. WasSampled j.device t j.looks n.sample) (sym same) later,
        )
  ]

pub start_unload-IsProved :
    (j : Job) (fuel : ℕ) (ids : List ℕ) (deadline : ℕ) (n : Notice)
    → start_unload j fuel ids deadline ≡ notice n
    → n.err ≡ none
    → IsProved j ids n
unfolding start_unload
start_unload-IsProved j fuel ids deadline n h good =
    let until = if deadline == 0 then j.now + drain_budget j.drain_timeout else deadline in
    let (each_ok, whole, once, sampled) =
      after_each-none ids n good j fuel (unload_each j until fuel ids 0) h in
    record {
      whole = whole;
      last =
          stop_or-some (last_stop j ids) n.at
            (unload_each-last_stop j until fuel ids 0 n.at each_ok) once;
      sampled = sampled;
      stopped = unload_each-WasStopped j until fuel ids 0 n.at each_ok;
    }
