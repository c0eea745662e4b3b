-- ===== src/Config.antt =====
-- internal/app/runtime.go and config.go: the settings that change while the program runs.
-- An `int` is a ℤ, since a JSON file may hold a negative one; `is_positive v` is `v > 0`.
pub mod Validate
use Prim.Native.Nat.{ℕ}
use mathlib.Core.Bool.{Bool, false, not, ◌&&◌, ◌||◌}
use mathlib.Core.List.{List, [], ◌∷◌}
use mathlib.Core.Option.{Option, none, some}
use gemini_web2api_go.Base.Int.{int_eq, ltb_ℤ, pos, ℤ}
use gemini_web2api_go.Base.Tests.{if◌then◌else◌, nat_eq, ◌==◌}
use gemini_web2api_go.Base.Text.{Text, codes, has_prefix, is_empty, text_eq}

-- `RuntimeConfig`.
pub record RuntimeConfig : Type 0 where
  pub retry_attempts : ℤ
  pub retry_delay_sec : ℤ
  pub proxy_retry_attempts : ℤ
  pub request_timeout : ℤ
  pub default_model : Text
  pub per_ip_concurrent : ℤ
  pub per_ip_rpm : ℤ
  pub per_ip_rph : ℤ
  pub retention_days : ℤ
  pub log_requests : Bool
  pub impersonate : Text
  pub gemini_bl : Text
  pub proxy : Text
  pub proxy_pool_url : Text
  pub proxy_mode : Text
  pub proxy_strategy : Text
  pub proxy_cooldown_min : ℤ
  pub fallback_direct : Bool
  pub fallback_anon : Bool
  pub gemini_bl_auto : Bool
  pub max_prompt_bytes : ℤ
  pub multi_turn : Bool
  pub auto_delete_conversation : Bool
  pub anon_first : Bool

-- What `validateRuntimeConfig` checks of one integer: `r.v < r.min || r.v > r.max`.
abbrev pub RangeCheck : Type 0
RangeCheck = ℤ × ℕ × ℕ

abbrev pub out_of_range : RangeCheck → Bool
out_of_range (v, lo, hi) = ltb_ℤ v (pos lo) || ltb_ℤ (pos hi) v

unfoldable pub first_out_of_range : List RangeCheck → Bool
first_out_of_range [] = false
first_out_of_range (r ∷ rs) = out_of_range r || first_out_of_range rs

abbrev pub range_checks : RuntimeConfig → List RangeCheck
range_checks c =
    (c.retry_attempts, 1, 10)
    ∷ (c.retry_delay_sec, 0, 60)
    ∷ (c.proxy_retry_attempts, 0, 10)
    ∷ (c.request_timeout, 5, 600)
    ∷ (c.per_ip_concurrent, 0, 1000)
    ∷ (c.per_ip_rpm, 0, 10000)
    ∷ (c.per_ip_rph, 0, 100000)
    ∷ (c.retention_days, 1, 3650)
    ∷ (c.proxy_cooldown_min, 0, 10080)
    ∷ (c.max_prompt_bytes, 0, 10000000)
    ∷ []

-- `v == a || v == b || …`
unfoldable pub one_of : Text → List Text → Bool
one_of v [] = false
one_of v (t ∷ ts) = v == t || one_of v ts

abbrev pub proxy_modes : List Text
proxy_modes =
    []
    ∷ codes "auto"
    ∷ codes "pool_only"
    ∷ codes "dynamic_only"
    ∷ codes "static_only"
    ∷ codes "direct_only"
    ∷ []

abbrev pub proxy_strategies : List Text
proxy_strategies = [] ∷ codes "sticky" ∷ codes "round_robin" ∷ []

-- The errors of `validateRuntimeConfig`, one for each `return`.
pub data ConfigError : Type 0 where
  bad_range bad_default_model no_impersonate no_gemini_bl : ConfigError
  bad_pool_url bad_mode bad_strategy : ConfigError

-- `validateRuntimeConfig`; `known` is `resolveModel(c.DefaultModel)` returning no error.
unfoldable pub validate_runtime_config : Bool → RuntimeConfig → Option ConfigError
validate_runtime_config known c =
    if first_out_of_range (range_checks c)
    then some bad_range
    else if not known
    then some bad_default_model
    else if is_empty c.impersonate
    then some no_impersonate
    else if is_empty c.gemini_bl
    then some no_gemini_bl
    else if not (is_empty c.proxy_pool_url)
        && not (has_prefix c.proxy_pool_url (codes "http://"))
        && not (has_prefix c.proxy_pool_url (codes "https://"))
    then some bad_pool_url
    else if not (one_of c.proxy_mode proxy_modes)
    then some bad_mode
    else if not (one_of c.proxy_strategy proxy_strategies)
    then some bad_strategy
    else none

-- The two defaults of `initRuntimeConfig` for settings that the start-up file leaves empty.
unfoldable pub fill_base : RuntimeConfig → RuntimeConfig
fill_base c = record c {
  proxy_mode = if is_empty c.proxy_mode then codes "auto" else c.proxy_mode;
  proxy_strategy = if is_empty c.proxy_strategy then codes "sticky" else c.proxy_strategy;
}

-- `initRuntimeConfig` from the start-up settings. `saved` is `kvGet(runtimeConfigKey)` decoded
-- over them: `none` where the key is empty or the JSON is rejected. `known` is `resolveModel`.
unfoldable pub init_runtime_config :
    (Text → Bool) → RuntimeConfig → (RuntimeConfig → Option RuntimeConfig) → RuntimeConfig
unfolding fill_base
init_runtime_config known cfg decode_saved = elim (decode_saved (fill_base cfg)) [
  | none ↦ fill_base cfg
  | some saved ↦ elim (validate_runtime_config (known saved.default_model) saved) [
    | none ↦ saved
    | some e ↦ fill_base cfg
  ]
]

-- `saveRuntimeConfig` on the state (value in force, text under `runtime_config`). `encode` is
-- `json.Marshal` and `written` is `kvSet` returning no error.
pub data SaveResult : Type 0 where
  saved : SaveResult
  rejected : ConfigError → SaveResult
  not_written : SaveResult

unfoldable pub save_runtime_config :
    (Text → Bool)
    → (RuntimeConfig → Text)
    → Bool
    → RuntimeConfig × Text
    → RuntimeConfig
    → (RuntimeConfig × Text) × SaveResult
save_runtime_config known encode written (current, kv) next =
    elim (validate_runtime_config (known next.default_model) next) [
      | some e ↦ ((current, kv), rejected e)
      | none ↦ if written then ((next, encode next), saved) else ((current, kv), not_written)
    ]
