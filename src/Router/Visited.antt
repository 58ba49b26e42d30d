-- ===== src/Router/Visited.antt =====
-- internal/router/base.go: the slot of a granted request is given back.
use infer_swap.Common.{
  Bool, true, false, not, ◌&&◌, ◌≡◌, ◌⊎◌, inl, inr, refl, ap, List, [], ◌∷◌, arith, Bool-cases,
  if-cases,
}
use infer_swap.Router.Visit.{
  Pick, Admitted, Answered, admitted, rejected, served, refused, Message, request, cancel, Reply,
  Visit, tracked_serve, sent_if, after_answer, after_admission, hand_over, serve_model,
  prepare_answer, prepare_admission, prepare_handed, prepare_model, granted, given_back,
  after_messages,
}

abbrev is_taken : Pick → Bool
is_taken Pick.taken = true
is_taken _ = false

abbrev is_admitted : Admitted → Bool
is_admitted admitted = true
is_admitted _ = false

abbrev is_served : Answered → Bool
is_served served = true
is_served _ = false

abbrev is_shut : Pick → Bool
is_shut Pick.shut = true
is_shut _ = false

-- Whether the scheduler has granted the request of a visit.
abbrev pub is_granted : Visit → Bool
is_granted v = is_taken v.handed && is_admitted v.admission && is_served v.answer

-- No shutdown interferes once the request is granted.
abbrev pub is_calm : Visit → Bool
is_calm v = v.last_taken && not (is_shut v.proxied)

-- The messages after the request, of a request that is granted or not.
abbrev Follows : Bool → List Message → Type 0
Follows true ms = after_messages granted ms ≡ given_back
Follows false ms = (ms ≡ []) ⊎ (ms ≡ cancel ∷ [])

-- The messages of a visit: those of a granted request take its slot to its end, and any other visit
-- sends at most the request and a cancel.
abbrev pub Balanced : Bool → List Message → Type 0
Balanced true ms =
    (rest : List Message) × (ms ≡ request ∷ rest) × (after_messages granted rest ≡ given_back)
Balanced false ms = (ms ≡ []) ⊎ (ms ≡ request ∷ []) ⊎ (ms ≡ request ∷ cancel ∷ [])

sent_if-cancel : (b : Bool) → Follows false (sent_if b cancel)
sent_if-cancel true = inr refl
sent_if-cancel false = inl refl

tracked_serve_slot :
    (v : Visit) (p : Pick)
    → (v.last_taken && not (is_shut p)) ≡ true
    → after_messages granted (tracked_serve v p).0 ≡ given_back
unfolding tracked_serve
tracked_serve_slot v Pick.taken h = elim (Bool-cases v.held) [
  | inl held ↦ ground (arith, h)
  | inr lost ↦ ground (arith, h)
]
tracked_serve_slot v Pick.gone h = ground (arith, h)
tracked_serve_slot v Pick.shut h = absurd (ground (arith, h))

module _ (v : Visit) (calm : is_calm v ≡ true) where
  after_answer-Follows : (a : Answered) → Follows (is_served a) (after_answer v a).0
  unfolding after_answer
  after_answer-Follows served = tracked_serve_slot v v.proxied calm
  after_answer-Follows (refused e) = inl refl
  after_answer-Follows Answered.gone = sent_if-cancel v.last_taken
  after_answer-Follows Answered.shut = inl refl

  after_admission-Follows :
      (a : Admitted) → Follows (is_admitted a && is_served v.answer) (after_admission v a).0
  unfolding after_admission
  after_admission-Follows admitted = after_answer-Follows v.answer
  after_admission-Follows (rejected e) = inl refl
  after_admission-Follows Admitted.gone = sent_if-cancel v.last_taken
  after_admission-Follows Admitted.shut = inl refl

  prepare_answer-Follows : (a : Answered) → Follows (is_served a) (prepare_answer v a).0
  unfolding prepare_answer
  prepare_answer-Follows served = ground arith
  prepare_answer-Follows (refused e) = inl refl
  prepare_answer-Follows Answered.gone = sent_if-cancel v.last_taken
  prepare_answer-Follows Answered.shut = sent_if-cancel v.last_taken

  prepare_admission-Follows :
      (a : Admitted) → Follows (is_admitted a && is_served v.answer) (prepare_admission v a).0
  unfolding prepare_admission
  prepare_admission-Follows admitted = prepare_answer-Follows v.answer
  prepare_admission-Follows (rejected e) = inl refl
  prepare_admission-Follows Admitted.gone = sent_if-cancel v.last_taken
  prepare_admission-Follows Admitted.shut = sent_if-cancel v.last_taken

balanced : (b : Bool) (ms : List Message) → Follows b ms → Balanced b (request ∷ ms)
balanced true ms f = (ms, refl, f)
balanced false ms (inl e) = inr (inl (ap (λ x. request ∷ x) e))
balanced false ms (inr e) = inr (inr (ap (λ x. request ∷ x) e))

hand_over-Balanced :
    (v : Visit) (p : Pick)
    → is_calm v ≡ true
    → Balanced (is_taken p && is_admitted v.admission && is_served v.answer) (hand_over v p).0
unfolding hand_over
hand_over-Balanced v Pick.taken calm =
    balanced (is_admitted v.admission && is_served v.answer) (after_admission v v.admission).0
      (after_admission-Follows v calm v.admission)
hand_over-Balanced v Pick.gone calm = inl refl
hand_over-Balanced v Pick.shut calm = inl refl

prepare_handed-Balanced :
    (v : Visit) (p : Pick)
    → is_calm v ≡ true
    → Balanced (is_taken p && is_admitted v.admission && is_served v.answer) (prepare_handed v p).0
unfolding prepare_handed
prepare_handed-Balanced v Pick.taken calm =
    balanced (is_admitted v.admission && is_served v.answer) (prepare_admission v v.admission).0
      (prepare_admission-Follows v calm v.admission)
prepare_handed-Balanced v Pick.gone calm = inl refl
prepare_handed-Balanced v Pick.shut calm = inl refl

-- A slot that the scheduler grants to a request is given back exactly once, whichever cases the
-- selects take: by the end of the proxy call, by the loop's answer that the grant is gone, or by a
-- cancelled grant; a request that is not granted sends nothing but a cancel. A router that is
-- shutting down, or shuts down after the grant, is excepted.
pub slot_given_back :
    (v : Visit)
    → is_calm v ≡ true
    → v.shutting ≡ false
    → Balanced (is_granted v) (serve_model v).0 × Balanced (is_granted v) (prepare_model v).0
unfolding serve_model prepare_model
slot_given_back v calm running = (
  if-cases (λ (x : List Message × Reply). Balanced (is_granted v) x.0) v.shutting
      (λ bad. absurd (ground arith)) (λ _. hand_over-Balanced v v.handed calm),
  prepare_handed-Balanced v v.handed calm,
)
