-- ===== src/Examples/Callers.antt =====
-- A request for an alias, with its body in two chunks, and one that is too large.
use infer_swap.Common.{
  false, List, Option, ℕ, ◌==◌, if◌then◌else◌, true, ◌≡◌, refl, none, some, [], ◌∷◌, trim_space,
  is_absolute, has_dots, has_question,
}
use infer_swap.Sched.Types.{queue_full}
use infer_swap.Config.Types.{Model}
use infer_swap.Config.Checks.{seconds, parse_log_level, to_gpu, non_neg, validate_inference_path}
use infer_swap.Config.Models.{to_model, resource}
use infer_swap.Config.Load.{find, to_config, resolve}
use infer_swap.Config.Sound.{IsPath}
use infer_swap.Web.Errors.{Chain, write_err}
use infer_swap.Web.Infer.{Request, bytes, serve, refused, body_too_large, handle_infer}
use infer_swap.Web.Forwarded.{IsForwarded, handle_infer-IsForwarded}
use infer_swap.Wire.{State}
use infer_swap.Web.Listing.{Named, Live, snapshot_diagnostics, handle_models}
use infer_swap.Web.Listed.{ready_at, ready_at-handle_models}
use infer_swap.Examples.Budget.{world, roomy}
use infer_swap.Examples.Configs.{parses, two_models, two, two_accepted, zero_model}

abbrev full : Chain
full = record { text = "queue is full"; sched = some queue_full; extract = none }

full_retry : (write_err full).retry_after ≡ true
unfolding write_err
full_retry = refl

abbrev incoming : Request
incoming = record {
  path = "/infer";
  model = "whisper";
  content_length = 3;
  body = bytes (1 ∷ 2 ∷ 3 ∷ []);
}

abbrev forwarded : Request
forwarded = record {
  path = "/v1/audio";
  model = "";
  content_length = 3;
  body = bytes (1 ∷ 2 ∷ 3 ∷ []);
}

incoming_served : handle_infer two zero_model incoming ≡ serve "asr" forwarded
unfolding handle_infer two resolve to_config parse_log_level trim_space seconds to_model to_gpu
    resource non_neg validate_inference_path is_absolute has_dots has_question
incoming_served = refl

too_large :
    handle_infer two zero_model (record incoming { content_length = 1025 }) ≡ refused body_too_large
unfolding handle_infer two resolve to_config parse_log_level trim_space seconds to_model to_gpu
    resource non_neg validate_inference_path is_absolute has_dots has_question
too_large = refl

handle_infer-IsForwarded_example :
    (resolve two "whisper" ≡ some "asr")
    × ((m : Model) × (find "asr" two.models ≡ some m)
        × IsPath "/v1/audio"
        × IsForwarded m forwarded)
handle_infer-IsForwarded_example =
    handle_infer-IsForwarded parses two_models two zero_model incoming "asr" forwarded two_accepted
      incoming_served

abbrev names : List (ℕ × Named)
names =
    (2, record { name = "align"; unlisted = false })
    ∷ (1, record { name = "asr"; unlisted = false })
    ∷ (3, record { name = "hidden"; unlisted = true })
    ∷ []

abbrev live : ℕ → Option Live
live id = if id == 1 then some (record { state = State.ready; status = none }) else none

asr_listed :
    ready_at 1 (handle_models names (snapshot_diagnostics world roomy (λ _. "")) live)
    ≡ some (some true)
asr_listed = ready_at-handle_models names (snapshot_diagnostics world roomy (λ _. "")) live 1
