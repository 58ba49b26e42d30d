-- ===== src/Router/Inv/Ledger.antt =====
-- internal/router/base.go: what the reservations of a running router are, and the room of a load.
use infer_swap.Common.{
  ℕ, ltb, ◌^◌, ◌≤◌, ◌<◌, true, not, ◌&&◌, ◌≡◌, ◌≢◌, refl, subst, sym, Option, none, some, List, [],
  ◌∷◌, ◌==◌, if-cases, if◌then◌else◌, arith, lookup, Option-cases, Bool-cases, inl, inr,
}
use infer_swap.Sched.Types.{Fault, Error}
use infer_swap.Router.State.{World, Router, Model, load_bound}
use infer_swap.Router.Budget.{
  admit_load, gpu_fresh, admit_without_evict, reserve_load, reserve, note_loaded, note_use,
}
use infer_swap.Router.Loop.{
  scheduled, finish_unload, swap_done, serve_done, status_in, finish_shutdown, unloaded_ok, Notice,
}
use infer_swap.Router.Step.{Setup, new_router, Event, router_step, Running, booted, next}
use infer_swap.Router.Inv.Booked.{
  is_booked, is_held, IsBooked, reserve-IsBooked, reserve_known-IsBooked, bound_fits,
  apply_observation-IsBooked,
}
use infer_swap.Router.Inv.Probed.{on_recover-IsBooked}
use infer_swap.Router.Admission.{AreSmall, is_small, HasRoom, admit_load_room}

finish_unload-IsBooked :
    (w : World) (n : Notice) (r : Router) → IsBooked r → IsBooked (finish_unload w n r)
unfolding finish_unload scheduled
finish_unload-IsBooked w n r h =
    if-cases IsBooked (unloaded_ok n.err) (λ _. apply_observation-IsBooked w n.sample _ h) (λ _. h)

note_loaded-IsBooked :
    (w : World) (id : ℕ) (r : Router) → IsBooked r → IsBooked (note_loaded w id r)
unfolding note_loaded
note_loaded-IsBooked w id r h =
    reserve_known-IsBooked id load_bound (lookup id r.models) _ refl bound_fits h

swap_done-IsBooked :
    (w : World) (model : ℕ) (err : Option Fault) (r : Router)
    → IsBooked r
    → IsBooked (swap_done w model err r)
unfolding swap_done scheduled
swap_done-IsBooked w model err r h =
    freed (if unloaded_ok err then note_loaded w model r else r) (noted h)
  where
    freed :
        (t : Router)
        → IsBooked t
        → IsBooked (record t { load_serial = if t.load_serial == model then 0 else t.load_serial })
    freed t k = (k.0, ground (arith, k.1))

    noted : IsBooked r → IsBooked (if unloaded_ok err then note_loaded w model r else r)
    noted k = if-cases IsBooked (unloaded_ok err) (λ _. note_loaded-IsBooked w model r k) (λ _. k)

reserve_load-IsBooked :
    (id : ℕ) (o : Option Model) (r : Router)
    → o ≡ lookup id r.models
    → IsBooked r
    → IsBooked (reserve_load id o r).0
unfolding reserve_load reserve
reserve_load-IsBooked id none r e h = h
reserve_load-IsBooked id (some m) r e h =
    ((reserve-IsBooked id (load_bound m) m r (sym e) (bound_fits m) h).0, ground arith)

admit_load-IsBooked :
    (w : World) (id : ℕ) (r : Router) → IsBooked r → IsBooked (admit_load w id r).0
unfolding admit_load
admit_load-IsBooked w id r h =
    if-cases (λ (x : Router × Option Error). IsBooked x.0) r.shutting (λ _. h)
      λ _.
        if-cases (λ (x : Router × Option Error). IsBooked x.0) (not (gpu_fresh w r)) (λ _. h)
          λ _.
            if-cases (λ (x : Router × Option Error). IsBooked x.0)
              (not (r.load_serial == 0) && not (r.load_serial == id)) (λ _. h)
              λ _.
                if-cases (λ (x : Router × Option Error). IsBooked x.0)
                  (not (admit_without_evict w r id)) (λ _. h)
                  (λ _. reserve_load-IsBooked id (lookup id r.models) r refl h)

router_step-IsBooked :
    (w : World) (e : Event) (r : Router) → IsBooked r → IsBooked (router_step w e r)
unfolding router_step scheduled finish_shutdown serve_done note_use status_in
router_step-IsBooked w (Event.unload_done n) r h = finish_unload-IsBooked w n r h
router_step-IsBooked w (Event.swap_end model err) r h = swap_done-IsBooked w model err r h
router_step-IsBooked w (Event.admit model) r h = admit_load-IsBooked w model r h
router_step-IsBooked w (Event.observe snap) r h = apply_observation-IsBooked w snap r h
router_step-IsBooked w (Event.recover ev ans) r h = on_recover-IsBooked w ev ans r h
router_step-IsBooked w (Event.released id at snap) r h = apply_observation-IsBooked w snap _ h
router_step-IsBooked w Event.shut r h = h
router_step-IsBooked w Event.shutdown r h = h
router_step-IsBooked w Event.remind r h = h
router_step-IsBooked w (Event.request x) r h = h
router_step-IsBooked w (Event.cancel x) r h = h
router_step-IsBooked w (Event.queue_timeout x) r h = h
router_step-IsBooked w (Event.serve_end x) r h = h
router_step-IsBooked w (Event.proxy_start x) r h = h
router_step-IsBooked w (Event.cancel_granted x) r h = h
router_step-IsBooked w (Event.backend_done x) r h = h
router_step-IsBooked w (Event.status x) r h = h

Running-IsBooked : {c : Setup} {r : Router} → Running c r → IsBooked r
unfolding new_router
Running-IsBooked booted = ((λ j. refl), refl)
Running-IsBooked (next w e run) = router_step-IsBooked w e _ (Running-IsBooked run)

-- Each reservation of a running router is the residual or the load bound of a configured model.
pub reservation_booked :
    {c : Setup} {r : Router}
    → Running c r
    → (j : ℕ) → is_booked (lookup j r.models) (r.reserved j) ≡ true
reservation_booked run j = (Running-IsBooked run).0 j

-- The model whose load a running router serves has a reservation.
pub load_serial_held :
    {c : Setup} {r : Router}
    → Running c r
    → r.load_serial ≢ 0
    → is_held (r.reserved r.load_serial) ≡ true
load_serial_held run n = ground (arith, (Running-IsBooked run).1)

small_one :
    (x m : Model)
    → x ≡ m
    → load_bound x < 2 ^ 62
    → x.residual < 2 ^ 62
    → (ltb (load_bound m) (2 ^ 62) ≡ true) × (ltb m.residual (2 ^ 62) ≡ true)
small_one x m e a b =
    subst (λ y. (ltb (load_bound y) (2 ^ 62) ≡ true) × (ltb y.residual (2 ^ 62) ≡ true)) e
      (ground arith, ground arith)

small_model :
    (j : ℕ) (ms : List (ℕ × Model)) (m : Model)
    → AreSmall ms
    → lookup j ms ≡ some m
    → (ltb (load_bound m) (2 ^ 62) ≡ true) × (ltb m.residual (2 ^ 62) ≡ true)
small_model j [] m a o = cc
small_model j ((k, x) ∷ ms) m a o = elim (Bool-cases (k == j)) [
  | inl same ↦
      let e : some x ≡ some m = ground (arith, o) in small_one x m (ground (arith, e)) a.0 a.1
  | inr other ↦ small_model j ms m a.2 (ground (arith, o))
]

booked_small :
    (j : ℕ) (ms : List (ℕ × Model)) (o : Option ℕ)
    → AreSmall ms
    → is_booked (lookup j ms) o ≡ true
    → is_small o ≡ true
booked_small j ms none a h = refl
booked_small j ms (some b) a h = elim (Option-cases (lookup j ms)) [
  | inl o ↦ absurd (ground (arith, o))
  | inr (m, o) ↦ ground (arith, small_model j ms m a o)
]

-- A running router admits a load only when it has room for it, where the bytes of the sample, the
-- margin and the configured models are below 2 ^ 62: with the margin, the bounds of all models fit
-- into the free bytes, or every other model is stopped at its residual and these and the load fit
-- into the total.
pub admit_load-HasRoom :
    {c : Setup} {r : Router} (w : World) (id : ℕ)
    → Running c r
    → r.snap.free ≤ 2 ^ 62
    → r.snap.total ≤ 2 ^ 62
    → r.margin < 2 ^ 62
    → AreSmall r.models
    → (admit_load w id r).1 ≡ none
    → HasRoom w r id
admit_load-HasRoom {r = r} w id run f t m ms h =
    (admit_load_room w id r
      (f, t, m, ms, λ j. booked_small j r.models (r.reserved j) ms (reservation_booked run j)) h).3
