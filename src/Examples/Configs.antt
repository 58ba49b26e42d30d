-- ===== src/Examples/Configs.antt =====
-- A configuration of two models, one of which has an alias.
use infer_swap.Common.{
  ℕ, true, false, ◌≡◌, refl, none, some, List, [], ◌∷◌, String, Bool, Result, ok, err, arith, slt,
  trim_space, is_absolute, has_dots, has_question,
}
use infer_swap.Config.Types.{
  RawModel, RawFile, Config, Model, ConfigError, not_supported, id_is_alias, scalar, field,
  no_fields,
}
use infer_swap.Config.Checks.{seconds, parse_log_level, to_gpu, non_neg, validate_inference_path}
use infer_swap.Config.Models.{to_model, resource}
use infer_swap.Config.Load.{to_config, load, resolve, register, Registry}
use infer_swap.Config.Order.{SameNames}
use infer_swap.Config.Reordered.{register-IsReordered, swap}
use infer_swap.Config.Accepted.{AllServed, to_config-AllServed, resolve-has_name}
use infer_swap.Config.Seconds.{seconds_overflow}

abbrev raw_model : List String → String → RawModel
raw_model aliases path = record {
  base_url = some "http://127.0.0.1:9001/";
  name = "";
  aliases = aliases;
  concurrency_limit = some 2;
  unlisted = none;
  prepare = none;
  timeouts = λ _. none;
  resource_profile = some (record {
    profile_id = some "p1";
    load_peak_bytes = some 900;
    inference_peak_bytes = some 1000;
    unloaded_residual_bytes = some 100;
    max_concurrency = some 4;
  });
  inference_path = some path;
  max_body_bytes = some 1024;
}

abbrev pub two_models : RawFile
two_models = record {
  listen = none;
  log_level = none;
  health_check_timeout = none;
  unload_timeout = none;
  queue_timeout = none;
  prepare_timeout = none;
  status_timeout = none;
  drain_timeout = none;
  shutdown_timeout = none;
  max_queue_size = none;
  preload = "asr" ∷ [];
  gpu =
      some (record {
        device = some "gpu0";
        safety_margin_bytes = some 50;
        max_observation_age = none;
      });
  models = ("asr", raw_model ("whisper" ∷ []) "/v1/audio") ∷ ("align", raw_model [] "/align") ∷ [];
}

abbrev pub parses : String → Bool
parses url = true

abbrev accepted_of : Result ConfigError Config → Config → Config
accepted_of (ok cfg) other = cfg
accepted_of (err e) other = other

abbrev empty : Config
empty = record {
  listen = "";
  log_level = "";
  health_check_timeout = 0;
  unload_timeout = 0;
  queue_timeout = 0;
  prepare_timeout = 0;
  status_timeout = 0;
  drain_timeout = 0;
  shutdown_timeout = 0;
  max_queue_size = 0;
  preload = [];
  gpu = record { device = ""; safety_margin_bytes = 0; max_observation_age = 0 };
  models = [];
  aliases = [];
}

unfoldable pub two : Config
unfolding to_config
two = accepted_of (to_config parses two_models) empty

pub two_accepted : to_config parses two_models ≡ ok two
unfolding two to_config parse_log_level trim_space seconds to_model to_gpu resource non_neg
    validate_inference_path is_absolute has_dots has_question
two_accepted = refl

two-whisper : resolve two "whisper" ≡ some "asr"
unfolding two resolve to_config parse_log_level trim_space seconds to_model to_gpu resource non_neg
    validate_inference_path is_absolute has_dots has_question
two-whisper = refl

clash :
    to_config parses (record two_models {
      models =
          ("asr", raw_model ("align" ∷ []) "/v1/audio") ∷ ("align", raw_model [] "/align") ∷ [];
    })
    ≡ err id_is_alias
unfolding to_config parse_log_level trim_space seconds to_model
clash = refl

old_key :
    load parses (some (field "groups" scalar no_fields)) (some two_models)
    ≡ err (not_supported "groups")
unfolding load
old_key = refl

to_config-AllServed_example : AllServed two.models
to_config-AllServed_example = to_config-AllServed parses two_models two two_accepted

resolve-has_name_example : resolve two "whisper" ≡ some "asr"
unfolding two to_config parse_log_level trim_space seconds to_model to_gpu resource non_neg
    validate_inference_path is_absolute has_dots has_question
resolve-has_name_example = resolve-has_name parses two_models two two_accepted "whisper" "asr" refl

seconds_overflow_example : (d : ℕ) × (seconds (some 10_000_000_000) 0 ≡ ok d) × (slt d 0 ≡ true)
seconds_overflow_example = seconds_overflow 10_000_000_000 0 (omega arith) (omega arith)

abbrev registry_of : Result ConfigError Registry → Registry
registry_of (ok r) = r
registry_of (err e) = record { models = []; names = [] }

abbrev registered : Registry
registered = registry_of (register parses empty two_models.models [])

registered_first : register parses empty two_models.models [] ≡ ok registered
unfolding to_model register trim_space
registered_first = refl

register-IsReordered_example :
    (r : Registry) × (register parses empty
        (("align", raw_model [] "/align") ∷ ("asr", raw_model ("whisper" ∷ []) "/v1/audio") ∷ [])
        []
      ≡ ok r)
    × SameNames registered.names r.names
register-IsReordered_example =
    register-IsReordered parses empty
      (swap ("asr", raw_model ("whisper" ∷ []) "/v1/audio") ("align", raw_model [] "/align") []) []
      [] registered (λ k. refl) registered_first

-- The zero value of a model.
abbrev pub zero_model : Model
zero_model = record {
  id = "";
  base_url = "";
  name = "";
  aliases = [];
  concurrency_limit = 0;
  unlisted = false;
  prepare = none;
  prepare_timeout = 0;
  health_check_timeout = 0;
  unload_timeout = 0;
  resource_profile = record {
    profile_id = "";
    load_peak_bytes = 0;
    inference_peak_bytes = 0;
    unloaded_residual_bytes = 0;
    max_concurrency = 0;
  };
  inference_path = "";
  max_body_bytes = 0;
}
