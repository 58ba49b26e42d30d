-- ===== src/Router/Visit.antt =====
-- internal/router/base.go: ServeModel, trackedServe, prepareModel, Preload, watchQueueTimeout and the
-- messages that they send to the loop. Which case a select takes is an argument; a send that waits for
-- the loop or for the shutdown is a Boolean, true if the loop has taken it.
use infer_swap.Common.{Bool, true, false, Option, none, some, List, [], ◌∷◌, ◌++◌, if◌then◌else◌}
use infer_swap.Sched.Types.{Fault, sched, foreign, shutdown}

-- A select between a send, the end of the caller and the shutdown.
pub data Pick : Type 0 where
  taken gone shut : Pick

-- The select for the answer to an admission.
pub data Admitted : Type 0 where
  admitted : Admitted
  rejected : Fault → Admitted
  gone shut : Admitted

-- The select for the answer to a request that waits.
pub data Answered : Type 0 where
  served : Answered
  refused : Fault → Answered
  gone shut : Answered

-- What is sent to the loop for one request. The answer to a proxy start is part of it.
pub data Message : Type 0 where
  request cancel cancel_granted serve_done : Message
  proxy_start : Bool → Message

-- What the caller gets: nothing, an error, or the answer of the model.
pub data Reply : Type 0 where
  nothing : Reply
  error : Fault → Reply
  relayed : Reply

pub record Visit : Type 0 where
  pub shutting : Bool
  pub handed : Pick
  pub admission : Admitted
  pub answer : Answered
  pub proxied : Pick
  pub held : Bool
  pub last_taken : Bool

abbrev pub sent_if : Bool → Message → List Message
sent_if b m = if b then m ∷ [] else []

abbrev closing : Reply
closing = error (sched shutdown)

-- The handler of a granted request. `held` is the loop's answer to the proxy start.
unfoldable pub tracked_serve : Visit → Pick → List Message × Reply
tracked_serve v Pick.taken =
    if v.held
    then (proxy_start true ∷ sent_if v.last_taken serve_done, relayed)
    else (proxy_start false ∷ [], nothing)
tracked_serve v Pick.gone = (sent_if v.last_taken cancel_granted, nothing)
tracked_serve v Pick.shut = ([], nothing)

unfoldable pub after_answer : Visit → Answered → List Message × Reply
unfolding tracked_serve
after_answer v served = tracked_serve v v.proxied
after_answer v (refused e) = ([], error e)
after_answer v Answered.gone = (sent_if v.last_taken cancel, nothing)
after_answer v Answered.shut = ([], closing)

unfoldable pub after_admission : Visit → Admitted → List Message × Reply
unfolding after_answer
after_admission v admitted = after_answer v v.answer
after_admission v (rejected e) = ([], error e)
after_admission v Admitted.gone = (sent_if v.last_taken cancel, nothing)
after_admission v Admitted.shut = ([], closing)

unfoldable pub hand_over : Visit → Pick → List Message × Reply
unfolding after_admission
hand_over v Pick.taken = let (ms, reply) = after_admission v v.admission in (request ∷ ms, reply)
hand_over v Pick.gone = ([], nothing)
hand_over v Pick.shut = ([], closing)

unfoldable pub serve_model : Visit → List Message × Reply
unfolding hand_over
serve_model v = if v.shutting then ([], closing) else hand_over v v.handed

abbrev caller_done : Fault
caller_done = foreign 6

abbrev unknown_model : Fault
unknown_model = foreign 7

-- prepareModel, after the request is handed over. Its cancel is sent only if the loop is ready for it,
-- and it has no case for a shutdown: `shut` does not occur.
unfoldable pub prepare_answer : Visit → Answered → List Message × Option Fault
prepare_answer v served = (sent_if v.last_taken cancel_granted, none)
prepare_answer v (refused e) = ([], some e)
prepare_answer v _ = (sent_if v.last_taken cancel, some caller_done)

unfoldable pub prepare_admission : Visit → Admitted → List Message × Option Fault
unfolding prepare_answer
prepare_admission v admitted = prepare_answer v v.answer
prepare_admission v (rejected e) = ([], some e)
prepare_admission v _ = (sent_if v.last_taken cancel, some caller_done)

unfoldable pub prepare_handed : Visit → Pick → List Message × Option Fault
unfolding prepare_admission
prepare_handed v Pick.taken = let (ms, err) = prepare_admission v v.admission in (request ∷ ms, err)
prepare_handed v Pick.gone = ([], some caller_done)
prepare_handed v Pick.shut = ([], some (sched shutdown))

unfoldable pub prepare_model : Visit → List Message × Option Fault
unfolding prepare_handed
prepare_model v = prepare_handed v v.handed

abbrev preload_next :
    List Message × Option Fault → List Message × Option Fault → List Message × Option Fault
preload_next (ms, some e) rest = (ms, some e)
preload_next (ms, none) (more, err) = (ms ++ more, err)

-- Preload: the models one after the other, up to the first error. A model without a runtime is `none`.
unfoldable pub preload : List (Option Visit) → List Message × Option Fault
unfolding prepare_model
preload [] = ([], none)
preload (none ∷ vs) = ([], some unknown_model)
preload (some v ∷ vs) = preload_next (prepare_model v) (preload vs)

-- Where the slot of a request is, by the messages of its handler: it is granted, in a proxy call, or
-- given back. What the loop would not expect has no state.
pub data Slot : Type 0 where
  granted proxied given_back unexpected : Slot

abbrev after_message : Slot → Message → Slot
after_message granted (proxy_start true) = Slot.proxied
after_message granted (proxy_start false) = given_back
after_message granted cancel_granted = given_back
after_message Slot.proxied serve_done = given_back
after_message _ _ = unexpected

abbrev pub after_messages : Slot → List Message → Slot
after_messages s [] = s
after_messages s (m ∷ ms) = after_messages (after_message s m) ms
