-- ===== src/Config/Checks.antt =====
-- internal/config/config.go: pickString, pickInt, seconds, nonNeg, ParseLogLevel,
-- validateInferencePath and toGPU.
use infer_swap.Common.{
  ℕ, ◌*◌, ◌%◌, ◌^◌, Bool, not, ◌&&◌, ◌||◌, Option, none, some, List, String, Result, ok, err, ◌>>=◌,
  ◌>>◌, guard, if◌then◌else◌, sle, slt, same_text, is_blank, is_blank_text, trim_space, is_absolute,
  has_dots, has_question, codes, lowered, same_codes,
}
use infer_swap.Config.Types.{
  ConfigError, bad_log_level, not_positive, no_device, negative_margin, no_bytes, negative_bytes,
  bad_path, RawGpu, Gpu,
}

abbrev pub pick_string : Option String → String → String
pick_string none fallback = fallback
pick_string (some v) fallback = if is_blank_text v then fallback else v

abbrev pub pick_int : Option ℕ → ℕ → ℕ
pick_int none fallback = fallback
pick_int (some v) fallback = v

-- `a * b` of int64.
abbrev mul64 : ℕ → ℕ → ℕ
mul64 a b = (a * b) % 2 ^ 64

abbrev pub second : ℕ
second = 1_000_000_000

unfoldable pub seconds : Option ℕ → ℕ → Result ConfigError ℕ
seconds v fallback =
    let n = pick_int v fallback in if sle n 0 then err not_positive else ok (mul64 n second)

unfoldable pub non_neg : Option ℕ → Result ConfigError ℕ
non_neg none = err no_bytes
non_neg (some v) = if slt v 0 then err negative_bytes else ok v

-- The levels that slog has.
pub data Level : Type 0 where
  debug info warn error : Level

abbrev is_word : List ℕ → String → Bool
is_word cs s = same_codes cs (codes s)

unfoldable pub parse_log_level : String → Result ConfigError Level
parse_log_level level =
    let word = lowered (codes (trim_space level)) in
    if is_word word "debug"
    then ok debug
    else if is_word word "info"
    then ok info
    else if is_word word "warn"
    then ok warn
    else if is_word word "error"
    then ok error
    else err bad_log_level

abbrev pub is_control_path : String → Bool
is_control_path path =
    same_text path "/control/status"
    || same_text path "/control/load"
    || same_text path "/control/unload"

unfoldable pub validate_inference_path : String → Result ConfigError (Unit {0})
validate_inference_path path = do
  guard (not (is_blank path) && same_text path (trim_space path)) bad_path
  guard (is_absolute (codes path)) bad_path
  guard (not (has_dots (codes path) || has_question (codes path))) bad_path
  guard (not (is_control_path path)) bad_path

gpu_of : String → ℕ → Option ℕ → Result ConfigError Gpu
unfolding seconds
gpu_of device margin age = do
  guard (not (is_blank device)) no_device
  guard (not (slt margin 0)) negative_margin
  span ← seconds age 5
  ok (record {
    device = trim_space device;
    safety_margin_bytes = margin;
    max_observation_age = span;
  })

unfoldable pub to_gpu : Option RawGpu → Result ConfigError Gpu
unfolding gpu_of
to_gpu none = err no_device
to_gpu (some raw) = elim raw.device [
  | none ↦ err no_device
  | some device ↦ gpu_of device (pick_int raw.safety_margin_bytes 0) raw.max_observation_age
]
