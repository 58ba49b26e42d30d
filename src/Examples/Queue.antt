-- ===== src/Examples/Queue.antt =====
-- Requests that join the queue, are refused, are cancelled and time out.
use infer_swap.Common.{true, false, ◌≡◌, refl, [], ◌∷◌, ◌++◌}
use infer_swap.Sched.Types.{Fifo}
use infer_swap.Sched.Handlers.{new, with_id, on_request, on_cancel}
use infer_swap.Sched.Inv.Line.{line, answered}
use infer_swap.Sched.Inv.Queue.{
  line-on_request, on_request-IsRefused, IsRefused, is_admitted, numbered, line-on_cancel,
}
use infer_swap.Examples.Scheduler.{two_models, ask, start}

-- A queue of three, of which the last two have one id.
abbrev waiting : Fifo
waiting = record start { queued = ask 7 1 ∷ ask 8 1 ∷ ask 8 2 ∷ [] }

may_queue : is_admitted two_models (numbered (ask 0 1) start) start ≡ true
unfolding new
may_queue = refl

unknown_model : is_admitted two_models (with_id (ask 4 3) start) start ≡ false
unfolding with_id new
unknown_model = refl

line-on_request_example :
    let t = on_request two_models (ask 0 1) start in
    (line t ≡ line start ++ ask 1 1 ∷ []) × (t.next_id ≡ 1)
unfolding new
line-on_request_example = line-on_request two_models (ask 0 1) start may_queue

on_request-IsRefused_example :
    IsRefused two_models (with_id (ask 4 3) start) start (on_request two_models (ask 4 3) start)
on_request-IsRefused_example = on_request-IsRefused two_models (ask 4 3) start unknown_model

line-on_cancel_example :
    line (on_cancel two_models (ask 8 0) waiting)
    ≡ answered waiting.out ++ ((ask 7 1 ∷ []) ++ (ask 8 2 ∷ []))
unfolding new
line-on_cancel_example =
    line-on_cancel two_models (ask 8 0) waiting (ask 7 1 ∷ []) (ask 8 2 ∷ []) (ask 8 1) refl refl
      refl
