-- ===== src/Config/Types.antt =====
-- internal/config/config.go: the raw file and the configuration. An int and an int64 are bit
-- patterns, a Duration is an int64 of nanoseconds, and a map that is ranged over is a list of its
-- entries in the order of that range. The text of an error is left out.
use infer_swap.Common.{ℕ, Bool, Option, List, String}

pub data ConfigError : Type 0 where
  parse_failed : ConfigError
  not_supported : String → ConfigError
  not_a_mapping both_paths old_paths timeouts_not_a_mapping timeout_not_allowed : ConfigError
  bad_log_level : ConfigError
  not_positive : ConfigError
  no_models empty_id bad_base_url no_base_url empty_argv relative_argv : ConfigError
  empty_alias alias_is_id id_is_alias alias_taken unknown_preload : ConfigError
  no_device negative_margin : ConfigError
  no_profile no_profile_id no_bytes negative_bytes residual_over_peak : ConfigError
  bad_max_concurrency limit_over_max no_path bad_path no_body_limit negative_body_limit :
      ConfigError

pub record RawGpu : Type 0 where
  pub device : Option String
  pub safety_margin_bytes : Option ℕ
  pub max_observation_age : Option ℕ

pub record RawProfile : Type 0 where
  pub profile_id : Option String
  pub load_peak_bytes : Option ℕ
  pub inference_peak_bytes : Option ℕ
  pub unloaded_residual_bytes : Option ℕ
  pub max_concurrency : Option ℕ

-- `limits` of a profile is copied and never read, and is left out.
pub record RawModel : Type 0 where
  pub base_url : Option String
  pub name : String
  pub aliases : List String
  pub concurrency_limit : Option ℕ
  pub unlisted : Option Bool
  pub prepare : Option (List String)
  pub timeouts : String → Option ℕ
  pub resource_profile : Option RawProfile
  pub inference_path : Option String
  pub max_body_bytes : Option ℕ

pub record RawFile : Type 0 where
  pub listen : Option String
  pub log_level : Option String
  pub health_check_timeout : Option ℕ
  pub unload_timeout : Option ℕ
  pub queue_timeout : Option ℕ
  pub prepare_timeout : Option ℕ
  pub status_timeout : Option ℕ
  pub drain_timeout : Option ℕ
  pub shutdown_timeout : Option ℕ
  pub max_queue_size : Option ℕ
  pub preload : List String
  pub gpu : Option RawGpu
  pub models : List (String × RawModel)

pub record Gpu : Type 0 where
  pub device : String
  pub safety_margin_bytes : ℕ
  pub max_observation_age : ℕ

pub record ResourceProfile : Type 0 where
  pub profile_id : String
  pub load_peak_bytes : ℕ
  pub inference_peak_bytes : ℕ
  pub unloaded_residual_bytes : ℕ
  pub max_concurrency : ℕ

pub record Model : Type 0 where
  pub id : String
  pub base_url : String
  pub name : String
  pub aliases : List String
  pub concurrency_limit : ℕ
  pub unlisted : Bool
  pub prepare : Option (List String)
  pub prepare_timeout : ℕ
  pub health_check_timeout : ℕ
  pub unload_timeout : ℕ
  pub resource_profile : ResourceProfile
  pub inference_path : String
  pub max_body_bytes : ℕ

pub record Config : Type 0 where
  pub listen : String
  pub log_level : String
  pub health_check_timeout : ℕ
  pub unload_timeout : ℕ
  pub queue_timeout : ℕ
  pub prepare_timeout : ℕ
  pub status_timeout : ℕ
  pub drain_timeout : ℕ
  pub shutdown_timeout : ℕ
  pub max_queue_size : ℕ
  pub preload : List String
  pub gpu : Gpu
  pub models : List (String × Model)
  pub aliases : List (String × String)

-- A value of a YAML document, as far as the first reading of the file looks at it.
mutual
  pub data Yaml : Type 0 where
    mapping : Fields → Yaml
    scalar : Yaml

  pub data Fields : Type 0 where
    no_fields : Fields
    field : String → Yaml → Fields → Fields
