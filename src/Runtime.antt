-- ===== src/Runtime.antt =====
-- internal/app/runtime.go: the configuration that the panel changes, its limits, where it is kept and
-- how a start reads it. `encode` and `decode` are encoding/json on RuntimeConfig: `decode raw base`
-- reads the fields of `raw` over `base`, and `none` is an error of the library.
pub mod Restart
mod Examples
use gemini_web2api_go_browse.Prelude.{
  ℕ, ℤ, below, above, Bool, true, false, ◌||◌, List, [], ◌∷◌, Option, none, some, is_empty,
  if◌then◌else◌, Text, codes,
}
use gemini_web2api_go_browse.CookiePool.{CookieAccount}
use gemini_web2api_go_browse.Models.{
  Resolved, resolve_model, resolved, needs_account, unknown_model,
}

pub record RuntimeConfig : Type 0 where
  pub retry_attempts : ℤ
  pub retry_delay_sec : ℤ
  pub request_timeout : ℤ
  pub default_model : Text
  pub per_ip_concurrent : ℤ
  pub per_ip_rpm : ℤ
  pub per_ip_rph : ℤ
  pub retention_days : ℤ
  pub log_requests : Bool
  pub impersonate : Text
  pub gemini_bl : Text
  pub proxy_cooldown_min : ℤ
  pub fallback_direct : Bool
  pub fallback_anon : Bool
  pub gemini_bl_auto : Bool
  pub max_prompt_bytes : ℤ
  pub multi_turn : Bool
  pub auto_delete_conversation : Bool
  pub anon_first : Bool
  pub temporary_chat : Bool
  pub browser_refresh_minutes : ℤ
  pub media_use_auto_bl : Bool

-- An error of validateRuntimeConfig names the field that is at fault.
pub data ConfigError : Type 0 where
  out_of_range : Text → ConfigError
  bad_model : ConfigError
  empty_impersonate : ConfigError
  empty_bl : ConfigError
  not_encoded : ConfigError
  not_stored : ConfigError

pub record RangeCheck : Type 0 where
  pub name : Text
  pub v : ℤ
  pub least : ℕ
  pub most : ℕ

abbrev check : Text → ℤ → ℕ → ℕ → RangeCheck
check name v least most = record { name = name; v = v; least = least; most = most }

abbrev pub range_checks : RuntimeConfig → List RangeCheck
range_checks c =
    check (codes "retry_attempts") c.retry_attempts 1 10
    ∷ check (codes "retry_delay_sec") c.retry_delay_sec 0 60
    ∷ check (codes "request_timeout_sec") c.request_timeout 5 600
    ∷ check (codes "per_ip_concurrent") c.per_ip_concurrent 0 1000
    ∷ check (codes "per_ip_rpm") c.per_ip_rpm 0 10000
    ∷ check (codes "per_ip_rph") c.per_ip_rph 0 100000
    ∷ check (codes "retention_days") c.retention_days 1 3650
    ∷ check (codes "proxy_cooldown_min") c.proxy_cooldown_min 0 10080
    ∷ check (codes "max_prompt_bytes") c.max_prompt_bytes 0 10000000
    ∷ check (codes "browser_refresh_minutes") c.browser_refresh_minutes 0 1440
    ∷ []

-- The loop over the checks ends at the first value that is out of its range.
unfoldable pub first_out_of_range : List RangeCheck → Option ConfigError
first_out_of_range [] = none
first_out_of_range (r ∷ rs) =
    let rest = first_out_of_range rs in
    if below r.v r.least || above r.v r.most then some (out_of_range r.name) else rest

model_resolves : Resolved → Bool
model_resolves (resolved n mc) = true
model_resolves (needs_account n) = false
model_resolves (unknown_model n) = false

after_ranges : List CookieAccount → RuntimeConfig → Option ConfigError → Option ConfigError
unfolding model_resolves
after_ranges accounts c (some e) = some e
after_ranges accounts c none =
    if model_resolves (resolve_model accounts c.default_model)
    then (if is_empty c.impersonate
        then some empty_impersonate
        else if is_empty c.gemini_bl
        then some empty_bl
        else none)
    else some bad_model

-- `none` where the configuration is accepted.
unfoldable pub validate_runtime_config : List CookieAccount → RuntimeConfig → Option ConfigError
unfolding first_out_of_range after_ranges
validate_runtime_config accounts c = after_ranges accounts c (first_out_of_range (range_checks c))

-- rtVal, and the text that the table kv has under runtime_config, empty where it has none.
pub record Runtime : Type 0 where
  pub active : RuntimeConfig
  pub stored : Text

-- What the start takes of a configuration that was read: it must be accepted.
accepted : RuntimeConfig → RuntimeConfig → Option ConfigError → RuntimeConfig
accepted base saved none = saved
accepted base saved (some e) = base

read_over : List CookieAccount → RuntimeConfig → Option RuntimeConfig → RuntimeConfig
unfolding accepted
read_over accounts base none = base
read_over accounts base (some saved) = accepted base saved (validate_runtime_config accounts saved)

module _ (encode : RuntimeConfig → Option Text)
    (decode : Text → RuntimeConfig → Option RuntimeConfig) where
  store_config : Bool → RuntimeConfig → Runtime → Option Text → Option ConfigError × Runtime
  store_config db_ok next s none = (some not_encoded, s)
  store_config db_ok next s (some b) =
      if db_ok then (none, record { active = next; stored = b }) else (some not_stored, s)

  save_checked : Bool → RuntimeConfig → Runtime → Option ConfigError → Option ConfigError × Runtime
  unfolding store_config
  save_checked db_ok next s (some e) = (some e, s)
  save_checked db_ok next s none = store_config db_ok next s (encode next)

  unfoldable pub save_runtime_config :
      Bool → List CookieAccount → RuntimeConfig → Runtime → Option ConfigError × Runtime
  unfolding save_checked
  save_runtime_config db_ok accounts next s =
      save_checked db_ok next s (validate_runtime_config accounts next)

  -- `base` is the configuration of the start: config.json and the flags.
  unfoldable pub init_runtime_config : List CookieAccount → RuntimeConfig → Text → Runtime
  unfolding read_over
  init_runtime_config accounts base stored = record {
    active = if is_empty stored then base else read_over accounts base (decode stored base);
    stored = stored;
  }
