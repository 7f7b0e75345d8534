-- ===== src/Models.antt =====
-- internal/app/gemini.go: the table of models, which of them need a signed-in account, and the
-- resolution of a model's name. A model is without its description, which only the lists show.
pub mod Resolve
mod Examples
use gemini_web2api_go_browse.Prelude.{
  ℕ, Bool, true, false, not, ◌||◌, ◌&&◌, List, [], ◌∷◌, Option, none, some, ltb, if◌then◌else◌,
  keep, take, index, Text, codes, text_eq,
}
use gemini_web2api_go_browse.CookiePool.{CookieAccount, account_count}

pub record ModelConfig : Type 0 where
  pub hex_id : Text
  pub mode : ℕ
  pub thinking : Bool
  pub tool : ℕ

abbrev pub hex_flash36 : Text
hex_flash36 = codes "fbb127bbb056c959"

abbrev pub hex_flash_lite : Text
hex_flash_lite = codes "cf41b0e0dd7d53e5"

abbrev pub hex_pro31 : Text
hex_pro31 = codes "9d8ca3786ebdfbea"

abbrev pub hex_flash38 : Text
hex_flash38 = codes "56fdd199312815e2"

abbrev pub hex_argon4 : Text
hex_argon4 = codes "95a4c0abcba24364"

abbrev pub tool_image : ℕ
tool_image = 14

abbrev pub tool_music : ℕ
tool_music = 21

abbrev pub tool_canvas : ℕ
tool_canvas = 2

abbrev pub tool_video : ℕ
tool_video = 11

abbrev plain : Text → ℕ → ModelConfig
plain hex mode = record { hex_id = hex; mode = mode; thinking = false; tool = 0 }

abbrev extended : Text → ℕ → ModelConfig
extended hex mode = record { hex_id = hex; mode = mode; thinking = true; tool = 0 }

abbrev media : ℕ → ModelConfig
media tool = record { hex_id = hex_flash36; mode = 1; thinking = false; tool = tool }

-- Models, in the order in which the source writes them.
abbrev pub models : List (Text × ModelConfig)
models =
    (codes "gemini-3.6-flash", plain hex_flash36 1)
    ∷ (codes "gemini-3.5-flash-lite", plain hex_flash_lite 6)
    ∷ (codes "gemini-3.1-pro", plain hex_pro31 3)
    ∷ (codes "gemini-3.8-flash", plain hex_flash38 1)
    ∷ (codes "gemini-3.7-flash", plain hex_flash38 1)
    ∷ (codes "gemini-4-argon", plain hex_argon4 8)
    ∷ (codes "gemini-3.6-flash-thinking", extended hex_flash36 1)
    ∷ (codes "gemini-3.5-flash-lite-thinking", extended hex_flash_lite 6)
    ∷ (codes "gemini-3.1-pro-thinking", extended hex_pro31 3)
    ∷ (codes "gemini-3.8-flash-thinking", extended hex_flash38 1)
    ∷ (codes "gemini-3.7-flash-thinking", extended hex_flash38 1)
    ∷ (codes "gemini-4-argon-thinking", extended hex_argon4 8)
    ∷ (codes "gemini-image", media tool_image)
    ∷ (codes "gemini-music", media tool_music)
    ∷ (codes "gemini-video", media tool_video)
    ∷ (codes "gemini-canvas", media tool_canvas)
    ∷ []

unfoldable pub has_cookie : List CookieAccount → Bool
unfolding account_count
has_cookie accounts = ltb 0 (account_count accounts).1

unfoldable pub model_needs_login : ModelConfig → Bool
model_needs_login mc =
    text_eq mc.hex_id hex_pro31
    || text_eq mc.hex_id hex_flash38
    || text_eq mc.hex_id hex_argon4
    || mc.thinking
    || ltb 0 mc.tool

unfoldable pub available_models : List CookieAccount → List (Text × ModelConfig)
available_models accounts =
    if has_cookie accounts then models else keep (λ m. not (model_needs_login m.1)) models

unfoldable pub model_named : Text → List (Text × ModelConfig) → Option ModelConfig
model_named name [] = none
model_named name ((n, mc) ∷ ms) = if text_eq n name then some mc else model_named name ms

before_suffix : Text → Option ℕ → Text
before_suffix name none = name
before_suffix name (some i) = take i name

-- The name without `@think=` and what follows it.
unfoldable pub base_name : Text → Text
unfolding before_suffix
base_name name = before_suffix name (index (codes "@think=") name)

-- The errors of resolveModel: a model of the table that needs an account, and an unknown name.
pub data Resolved : Type 0 where
  resolved : Text → ModelConfig → Resolved
  needs_account : Text → Resolved
  unknown_model : Text → Resolved

refused : Text → Option ModelConfig → Bool → Resolved
refused name (some full) false = needs_account name
refused name (some full) true = unknown_model name
refused name none cookie = unknown_model name

resolve_in : List CookieAccount → Text → Option ModelConfig → Resolved
unfolding refused
resolve_in accounts name (some mc) = resolved name mc
resolve_in accounts name none = refused name (model_named name models) (has_cookie accounts)

unfoldable pub resolve_model : List CookieAccount → Text → Resolved
unfolding resolve_in
resolve_model accounts name =
    let n = base_name name in resolve_in accounts n (model_named n (available_models accounts))
