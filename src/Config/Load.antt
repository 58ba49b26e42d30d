-- ===== src/Config/Load.antt =====
-- internal/config/config.go: Load, toConfig, Index, Resolve and Model.
use infer_swap.Common.{
  Bool, true, false, not, ◌&&◌, ◌||◌, Option, none, some, List, [], ◌∷◌, String, Result, ok, err,
  ◌>>=◌, ◌>>◌, guard, if◌then◌else◌, sle, same_text, is_blank, is_empty,
}
use infer_swap.Config.Types.{
  ConfigError, parse_failed, not_supported, not_a_mapping, both_paths, old_paths,
  timeouts_not_a_mapping, timeout_not_allowed, not_positive, no_models, empty_id, id_is_alias,
  alias_taken, unknown_preload, RawModel, RawFile, Gpu, Model, Config, Yaml, mapping, scalar,
  Fields, no_fields, field,
}
use infer_swap.Config.Checks.{pick_string, pick_int, seconds, parse_log_level, to_gpu}
use infer_swap.Config.Models.{to_model, resource, Resources}

module _ {ℓ} {V : Type ℓ} where
  -- A map whose keys are texts, as a list of its entries.
  abbrev pub find : String → List (String × V) → Option V
  find k [] = none
  find k ((j, v) ∷ m) = if same_text j k then some v else find k m

  abbrev pub has_key : String → List (String × V) → Bool
  has_key k [] = false
  has_key k ((j, v) ∷ m) = same_text j k || has_key k m

abbrev pub get_field : String → Fields → Option Yaml
get_field k no_fields = none
get_field k (field j v fs) = if same_text j k then some v else get_field k fs

abbrev pub has_field : String → Fields → Bool
has_field k fs = elim (get_field k fs) [ none ↦ false | some v ↦ true ]

unfoldable pub reject_keys : List String → Fields → Result ConfigError (Unit {0})
reject_keys [] m = ok tt
reject_keys (k ∷ ks) m = do guard (not (has_field k m)) (not_supported k); reject_keys ks m

abbrev pub forbidden : List String
forbidden = "cmd" ∷ "cmdStop" ∷ "env" ∷ "proxy" ∷ "checkEndpoint" ∷ "groups" ∷ "macros" ∷ []

abbrev pub is_allowed_timeout : String → Bool
is_allowed_timeout k =
    same_text k "prepareTimeout" || same_text k "healthCheckTimeout" || same_text k "unloadTimeout"

unfoldable pub check_timeouts : Fields → Result ConfigError (Unit {0})
check_timeouts no_fields = ok tt
check_timeouts (field k v fs) = do
  guard (is_allowed_timeout k) timeout_not_allowed
  check_timeouts fs

unfoldable pub check_timeout_value : Option Yaml → Result ConfigError (Unit {0})
unfolding check_timeouts
check_timeout_value none = ok tt
check_timeout_value (some scalar) = err timeouts_not_a_mapping
check_timeout_value (some (mapping fs)) = check_timeouts fs

unfoldable pub check_raw_model : Yaml → Result ConfigError (Unit {0})
unfolding check_timeout_value reject_keys
check_raw_model scalar = err not_a_mapping
check_raw_model (mapping m) = do
  reject_keys forbidden m
  guard (not (has_field "inferencePaths" m && has_field "inferencePath" m)) both_paths
  guard (not (has_field "inferencePaths" m)) old_paths
  check_timeout_value (get_field "timeouts" m)

unfoldable pub check_raw_models : Fields → Result ConfigError (Unit {0})
unfolding check_raw_model
check_raw_models no_fields = ok tt
check_raw_models (field id m fs) = do check_raw_model m; check_raw_models fs

-- The `models` of a document that is not a mapping is left to the second reading.
unfoldable pub check_models_value : Option Yaml → Result ConfigError (Unit {0})
unfolding check_raw_models
check_models_value none = ok tt
check_models_value (some scalar) = ok tt
check_models_value (some (mapping fs)) = check_raw_models fs

-- The keys of the document, before it is decoded.
unfoldable pub check_top : Fields → Result ConfigError (Unit {0})
unfolding check_models_value reject_keys
check_top top = do reject_keys forbidden top; check_models_value (get_field "models" top)

unfoldable pub add_aliases :
    String → List String → List (String × String) → Result ConfigError (List (String × String))
add_aliases id [] names = ok names
add_aliases id (a ∷ as_) names = do
  guard (not (has_key a names)) alias_taken
  add_aliases id as_ ((a, id) ∷ names)

-- The models in the order of the range, and the names, the latest first.
pub record Registry : Type 0 where
  pub models : List (String × Model)
  pub names : List (String × String)

-- The loop of toConfig over the models, from the names so far.
unfoldable pub register :
    (String → Bool)
    → Config
    → List (String × RawModel)
    → List (String × String)
    → Result ConfigError Registry
unfolding add_aliases
register parses cfg [] names = ok (record { models = []; names = names })
register parses cfg ((id, rm) ∷ raws) names = do
  guard (not (is_blank id)) empty_id
  m ← to_model parses id cfg rm
  guard (not (has_key id names)) id_is_alias
  more ← add_aliases id m.aliases ((id, id) ∷ names)
  r ← register parses cfg raws more
  ok (record { models = (id, m) ∷ r.models; names = r.names })

unfoldable pub check_preload : List String → List (String × Model) → Result ConfigError (Unit {0})
check_preload [] models = ok tt
check_preload (id ∷ ids) models = do
  guard (has_key id models) unknown_preload
  check_preload ids models

abbrev no_raw_model : RawModel
no_raw_model = record {
  base_url = none;
  name = "";
  aliases = [];
  concurrency_limit = none;
  unlisted = none;
  prepare = none;
  timeouts = λ _. none;
  resource_profile = none;
  inference_path = none;
  max_body_bytes = none;
}

abbrev pub raw_of : String → List (String × RawModel) → RawModel
raw_of id raws = elim (find id raws) [ none ↦ no_raw_model | some rm ↦ rm ]

abbrev pub with_resources : Model → Resources → Model
with_resources m r = record m {
  resource_profile = r.profile;
  inference_path = r.path;
  max_body_bytes = r.body;
}

-- The loop over the models that fills in their resources.
unfoldable pub fill_resources :
    List (String × RawModel) → List (String × Model) → Result ConfigError (List (String × Model))
fill_resources raws [] = ok []
fill_resources raws ((id, m) ∷ ms) = do
  r ← resource (raw_of id raws) m.concurrency_limit
  rest ← fill_resources raws ms
  ok ((id, with_resources m r) ∷ rest)

abbrev no_gpu : Gpu
no_gpu = record { device = ""; safety_margin_bytes = 0; max_observation_age = 0 }

-- The globals: the top of toConfig, up to the check of the models.
unfoldable pub globals_of : RawFile → Result ConfigError Config
globals_of raw =
    let level = pick_string raw.log_level "info" in
    let most = pick_int raw.max_queue_size 256 in
    do
      checked ← parse_log_level level
      health ← seconds raw.health_check_timeout 120
      unload ← seconds raw.unload_timeout 30
      queue ← seconds raw.queue_timeout 180
      prepare ← seconds raw.prepare_timeout 60
      status ← seconds raw.status_timeout 5
      drain ← seconds raw.drain_timeout 180
      shut ← seconds raw.shutdown_timeout 60
      guard (not (sle most 0)) not_positive
      ok (record {
        listen = pick_string raw.listen ":8080";
        log_level = level;
        health_check_timeout = health;
        unload_timeout = unload;
        queue_timeout = queue;
        prepare_timeout = prepare;
        status_timeout = status;
        drain_timeout = drain;
        shutdown_timeout = shut;
        max_queue_size = most;
        preload = raw.preload;
        gpu = no_gpu;
        models = [];
        aliases = [];
      })

unfoldable pub to_config : (String → Bool) → RawFile → Result ConfigError Config
unfolding globals_of register check_preload fill_resources
to_config parses raw = do
  cfg ← globals_of raw
  guard (not (is_empty raw.models)) no_models
  r ← register parses cfg raw.models []
  check_preload cfg.preload r.models
  gpu ← to_gpu raw.gpu
  models ← fill_resources raw.models r.models
  ok (record cfg { gpu = gpu; models = models; aliases = r.names })

unfoldable pub second_reading : (String → Bool) → Option RawFile → Result ConfigError Config
unfolding to_config
second_reading parses none = err parse_failed
second_reading parses (some raw) = to_config parses raw

-- Load: what the YAML library makes of the bytes, first as a document and then as a raw file.
unfoldable pub load : (String → Bool) → Option Fields → Option RawFile → Result ConfigError Config
unfolding check_top second_reading
load parses none raw = err parse_failed
load parses (some top) raw = do check_top top; second_reading parses raw

abbrev pub index_aliases : String → List String → List (String × String) → List (String × String)
index_aliases id [] names = names
index_aliases id (a ∷ as_) names = index_aliases id as_ ((a, id) ∷ names)

abbrev pub index_models : List (String × Model) → List (String × String) → List (String × String)
index_models [] names = names
index_models ((id, m) ∷ ms) names = index_models ms (index_aliases id m.aliases ((id, id) ∷ names))

-- Index builds the names anew; a later entry of the same name wins.
unfoldable pub index : Config → Config
index cfg = record cfg { aliases = index_models cfg.models [] }

-- Resolve; the names of a loaded configuration are there already.
unfoldable pub resolve : Config → String → Option String
resolve cfg name = find name cfg.aliases

unfoldable pub model : Config → String → Option Model
unfolding resolve
model cfg name = elim (resolve cfg name) [ none ↦ none | some id ↦ find id cfg.models ]
