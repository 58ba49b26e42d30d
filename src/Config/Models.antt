-- ===== src/Config/Models.antt =====
-- internal/config/config.go: toModel and resource. Whether url.Parse takes a base URL, with a scheme
-- and a host, is an argument.
use infer_swap.Common.{
  ℕ, Bool, false, not, ◌&&◌, Option, none, some, List, [], ◌∷◌, String, Result, ok, err, ◌>>=◌,
  ◌>>◌, guard, if◌then◌else◌, sle, slt, same_text, is_blank, is_blank_text, trim_space,
  trim_slashes, is_absolute, codes,
}
use infer_swap.Config.Types.{
  ConfigError, no_base_url, bad_base_url, not_positive, empty_argv, relative_argv, empty_alias,
  alias_is_id, no_profile, no_profile_id, residual_over_peak, bad_max_concurrency, limit_over_max,
  no_path, no_body_limit, negative_body_limit, RawModel, RawProfile, ResourceProfile, Model, Config,
}
use infer_swap.Config.Checks.{pick_int, seconds, non_neg, validate_inference_path}

-- A timeout of the model, or the global one.
unfoldable pub override : Option ℕ → ℕ → Result ConfigError ℕ
override none global = ok global
override (some v) global = seconds (some v) 0

unfoldable pub check_argv : Option (List String) → Result ConfigError (Unit {0})
check_argv none = ok tt
check_argv (some []) = err empty_argv
check_argv (some (arg ∷ args)) = guard (is_absolute (codes arg)) relative_argv

unfoldable pub check_aliases : String → List String → Result ConfigError (Unit {0})
check_aliases id [] = ok tt
check_aliases id (a ∷ as_) = do
  guard (not (is_blank a)) empty_alias
  guard (not (same_text a id)) alias_is_id
  check_aliases id as_

abbrev no_resources : ResourceProfile
no_resources = record {
  profile_id = "";
  load_peak_bytes = 0;
  inference_peak_bytes = 0;
  unloaded_residual_bytes = 0;
  max_concurrency = 0;
}

unfoldable pub build_model : String → Config → RawModel → String → Result ConfigError Model
unfolding override check_argv check_aliases
build_model id globals rm url =
    let limit = pick_int rm.concurrency_limit 1 in
    do
      guard (not (sle limit 0)) not_positive
      prepare_span ← override (rm.timeouts "prepareTimeout") globals.prepare_timeout
      health_span ← override (rm.timeouts "healthCheckTimeout") globals.health_check_timeout
      unload_span ← override (rm.timeouts "unloadTimeout") globals.unload_timeout
      check_argv rm.prepare
      check_aliases id rm.aliases
      ok (record {
        id = id;
        base_url = trim_slashes url;
        name = if is_blank_text rm.name then id else rm.name;
        aliases = rm.aliases;
        concurrency_limit = limit;
        unlisted = elim rm.unlisted [ none ↦ false | some b ↦ b ];
        prepare = rm.prepare;
        prepare_timeout = prepare_span;
        health_check_timeout = health_span;
        unload_timeout = unload_span;
        resource_profile = no_resources;
        inference_path = "";
        max_body_bytes = 0;
      })

unfoldable pub to_model : (String → Bool) → String → Config → RawModel → Result ConfigError Model
unfolding build_model
to_model parses id globals rm = elim rm.base_url [
  | none ↦ err no_base_url
  | some url ↦
      if is_blank url
      then err no_base_url
      else if not (parses url)
      then err bad_base_url
      else build_model id globals rm url
]

-- `peak` of resource, the larger of the two.
abbrev pub larger : ℕ → ℕ → ℕ
larger load inf = if slt load inf then inf else load

-- The maximal concurrency, that the model's limit keeps to.
unfoldable pub check_concurrency : Option ℕ → ℕ → Result ConfigError ℕ
check_concurrency none limit = err bad_max_concurrency
check_concurrency (some most) limit = do
  guard (not (sle most 0)) bad_max_concurrency
  guard (not (slt most limit)) limit_over_max
  ok most

unfoldable pub check_path : Option String → Result ConfigError String
check_path none = err no_path
check_path (some path) = do
  guard (not (is_blank path)) no_path
  validate_inference_path path
  ok path

unfoldable pub check_body_limit : Option ℕ → Result ConfigError ℕ
check_body_limit none = err no_body_limit
check_body_limit (some n) = if slt n 0 then err negative_body_limit else ok n

unfoldable pub check_profile_id : Option String → Result ConfigError String
check_profile_id none = err no_profile_id
check_profile_id (some p) = if is_blank p then err no_profile_id else ok (trim_space p)

-- The resources of a model: its profile, its path and the limit of its bodies.
pub record Resources : Type 0 where
  pub profile : ResourceProfile
  pub path : String
  pub body : ℕ

unfoldable pub resources_of : RawModel → RawProfile → ℕ → Result ConfigError Resources
unfolding check_concurrency check_path check_body_limit check_profile_id
resources_of rm p limit = do
  profile_id ← check_profile_id p.profile_id
  load ← non_neg p.load_peak_bytes
  inf ← non_neg p.inference_peak_bytes
  residual ← non_neg p.unloaded_residual_bytes
  guard (not (slt (larger load inf) residual)) residual_over_peak
  most ← check_concurrency p.max_concurrency limit
  path ← check_path rm.inference_path
  body ← check_body_limit rm.max_body_bytes
  ok (record {
    profile = record {
      profile_id = profile_id;
      load_peak_bytes = load;
      inference_peak_bytes = inf;
      unloaded_residual_bytes = residual;
      max_concurrency = most;
    };
    path = path;
    body = body;
  })

unfoldable pub resource : RawModel → ℕ → Result ConfigError Resources
unfolding resources_of
resource rm limit = elim rm.resource_profile [
  | none ↦ err no_profile
  | some p ↦ resources_of rm p limit
]

unfoldable pub load_bound : Model → ℕ
load_bound m =
    let p = m.resource_profile in
    if slt p.load_peak_bytes p.inference_peak_bytes
    then p.inference_peak_bytes
    else p.load_peak_bytes

unfoldable pub allows_path : Model → String → Bool
allows_path m path = not (is_blank_text m.inference_path) && same_text m.inference_path path
