-- ===== src/ApiKey.antt =====
-- internal/app/apikey.go: the key of the /v1 handlers. `runtime` is apiKeyRuntime, empty before the
-- first store, and `kv` the value of `api_key` in the database, empty when it is missing. The random
-- part of a new key is an argument, and so is whether the database takes a write.
pub mod Restart
mod Examples
use gemini_web2api_go_browse.Prelude.{
  ℕ, Bool, true, false, not, ◌&&◌, ◌||◌, List, [], ◌∷◌, ◌++◌, Option, none, some, ltb,
  if◌then◌else◌, length, drop, Text, codes, text_eq, has_prefix, is_empty,
}
use gemini_web2api_go_browse.CookiePool.{trim_space}

pub record ApiKeys : Type 0 where
  pub locked : Bool
  pub runtime : Text
  pub kv : Text

abbrev api_key_prefix : Text
api_key_prefix = codes "sk-gemini-"

unfoldable pub new_api_key : Text → Text
new_api_key random = api_key_prefix ++ random

-- What a start finds: nothing stored at run time yet.
abbrev pub booted : Text → ApiKeys
booted kv = record { locked = false; runtime = []; kv = kv }

-- initAPIKey, with the flag, the value of API_KEY and whether the database takes the new key.
pub init_api_key : Text → Text → Text → Bool → ApiKeys → ApiKeys
unfolding new_api_key
init_api_key flag_key env random kv_ok s =
    if not (is_empty flag_key)
    then record s { locked = true; runtime = flag_key }
    else if not (is_empty env)
    then record s { locked = true; runtime = env }
    else if is_empty s.kv
    then record s { runtime = new_api_key random; kv = if kv_ok then new_api_key random else s.kv }
    else record s { runtime = s.kv }

-- The errors of both changes.
pub data KeyError : Type 0 where
  is_locked too_short not_saved : KeyError

-- The common end of rotateAPIKey and setAPIKey: the key is kept only when the database takes it.
store_key : Bool → Text → ApiKeys → Option KeyError × ApiKeys
store_key kv_ok k s =
    if kv_ok then (none, record s { runtime = k; kv = k }) else (some not_saved, s)

pub rotate_api_key : Text → Bool → ApiKeys → Option KeyError × ApiKeys
unfolding new_api_key store_key
rotate_api_key random kv_ok s =
    if s.locked then (some is_locked, s) else store_key kv_ok (new_api_key random) s

pub set_api_key : Text → Bool → ApiKeys → Option KeyError × ApiKeys
unfolding store_key
set_api_key k kv_ok s =
    if s.locked
    then (some is_locked, s)
    else if ltb (length k) 20
    then (some too_short, s)
    else store_key kv_ok k s

-- The key that a request shows, from its two headers, each empty when it is missing.
bearer : Text → Text
bearer authorization =
    if has_prefix (codes "Bearer ") authorization then trim_space (drop 7 authorization) else []

shown_key : Text → Text → Text
unfolding bearer
shown_key authorization x_api_key =
    if is_empty (bearer authorization) then trim_space x_api_key else bearer authorization

-- Whether requireAPIKey calls the handler; it answers 401 otherwise.
pub require_api_key : Text → Text → ApiKeys → Bool
unfolding shown_key
require_api_key authorization x_api_key s =
    if is_empty s.runtime
    then true
    else (let got = shown_key authorization x_api_key in
        not (is_empty got) && text_eq got s.runtime)
