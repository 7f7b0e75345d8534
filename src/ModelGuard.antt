-- ===== src/ModelGuard.antt =====
-- internal/app/model_guard.go, lines 30 to 111: when a request of a signed-in model that was answered
-- by the anonymous one has the account's cookie fetched again. Time is the Unix second of the call;
-- `fired` is modelGuardLastFired. Model names are ASCII.
pub mod Spacing
mod Examples
use gemini_web2api_go_browse.Prelude.{
  ℕ, zero, suc, ◌+◌, ◌-◌, Bool, true, false, not, ◌&&◌, ◌||◌, List, [], ◌∷◌, Option, none, some,
  ltb, leb, ◌==◌, if◌then◌else◌, take, drop, any, Text, codes, text_eq, has_prefix, index_byte,
  is_empty,
}

abbrev pub model_guard_cooldown_sec : ℕ
model_guard_cooldown_sec = 18000

premium_hints : List Text
premium_hints =
    codes "gemini-3.1-pro"
    ∷ codes "gemini-3.7-flash"
    ∷ codes "gemini-4-argon"
    ∷ codes "gemini-4-argon-thinking"
    ∷ codes "gemini-3.1-pro-thinking"
    ∷ codes "gemini-3.5-flash-lite-thinking"
    ∷ codes "gemini-3.6-flash-thinking"
    ∷ codes "gemini-3.7-flash-thinking"
    ∷ codes "gemini-image"
    ∷ codes "gemini-music"
    ∷ codes "gemini-video"
    ∷ codes "gemini-canvas"
    ∷ []

-- The expression (?i)flash[- ]?lite, on the text in lower case.
unfoldable pub lower : Text → Text
lower [] = []
lower (b ∷ s) = (if leb 0x41 b && leb b 0x5a then b + 32 else b) ∷ lower s

lite_after : Text → Bool
lite_after [] = false
lite_after (b ∷ s) =
    has_prefix (codes "lite") (b ∷ s) || ((b == 0x2d || b == 0x20) && has_prefix (codes "lite") s)

has_flash_lite : Text → Bool
unfolding lite_after
has_flash_lite [] = false
has_flash_lite (b ∷ s) =
    (has_prefix (codes "flash") (b ∷ s) && lite_after (drop 4 s)) || has_flash_lite s

-- The part of the model's name before `@`.
strip_suffix : Option ℕ → Text → Text
strip_suffix none model = model
strip_suffix (some i) model = take i model

pub record Served : Type 0 where
  pub model : Text
  pub upstream : Text
  pub account_id : ℕ
  pub status : ℕ
  pub now : ℕ

-- The tests before the cooldown.
pub downgraded : Served → Bool
unfolding premium_hints lower has_flash_lite strip_suffix
downgraded c =
    let name = strip_suffix (index_byte b'@' c.model) c.model in
    if not (c.status == 200) || (c.account_id == 0 || is_empty c.upstream)
    then false
    else if not (any (λ h. text_eq h name) premium_hints)
    then false
    else has_flash_lite (lower c.upstream)

abbrev pub Fired : Type 0
Fired = List (ℕ × ℕ)

last_fired : ℕ → Fired → Option ℕ
last_fired i [] = none
last_fired i ((j, t) ∷ fired) = if j == i then some t else last_fired i fired

set_fired : ℕ → ℕ → Fired → Fired
set_fired i t [] = (i, t) ∷ []
set_fired i t ((j, u) ∷ fired) = if j == i then (j, t) ∷ fired else (j, u) ∷ set_fired i t fired

-- `remain > 0`, also when the clock stands before the last time.
cooling : ℕ → Option ℕ → Bool
cooling now none = false
cooling now (some last) = ltb now (last + model_guard_cooldown_sec)

-- modelGuardCheck: whether it starts modelGuardRefetch.
pub model_guard_check : Served → Fired → Bool × Fired
unfolding downgraded cooling last_fired set_fired
model_guard_check c fired =
    if downgraded c
    then (if cooling c.now (last_fired c.account_id fired)
        then (false, fired)
        else (true, set_fired c.account_id c.now fired))
    else (false, fired)
