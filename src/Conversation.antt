-- ===== src/Conversation.antt =====
-- internal/app/conversation.go, lines 22 to 101: the store of conversations. A map is its entries, with
-- distinct keys, in the order in which a loop ranges over them. Time is in nanoseconds.
pub mod Cap
pub mod Latest
pub mod Keys
mod Examples
use gemini_web2api_go_browse.Prelude.{
  ℕ, suc, ◌+◌, ◌-◌, ◌*◌, Bool, true, false, not, ◌&&◌, List, [], ◌∷◌, Option, none, some, ltb,
  if◌then◌else◌, length, keep, Text, text_eq, is_empty,
}

pub record ConvState : Type 0 where
  pub cid : Text
  pub rid : Text
  pub rcid : Text
  pub tok26 : Text
  pub turn : ℕ
  pub cookie : Text
  pub sapisid : Text
  pub is_login : Bool
  pub account_id : ℕ
  pub authuser : ℕ
  pub proxy_id : ℕ
  pub proxy_url : Text
  pub updated : ℕ

abbrev pub conv_ttl : ℕ
conv_ttl = 5400 * 1000000000

abbrev pub conv_max : ℕ
conv_max = 4000

abbrev pub Store : Type 0
Store = List (Text × ConvState)

abbrev pub expired : ℕ → ConvState → Bool
expired now st = ltb conv_ttl (now - st.updated)

-- `delete(m, k)`, `m[k]` and `m[k] = v`.
pub delete_key : Text → Store → Store
delete_key k store = keep (λ (e : Text × ConvState). not (text_eq e.0 k)) store

pub lookup_key : Text → Store → Option ConvState
lookup_key k [] = none
lookup_key k ((j, v) ∷ store) = if text_eq j k then some v else lookup_key k store

pub set_key : Text → ConvState → Store → Store
set_key k v [] = (k, v) ∷ []
set_key k v ((j, u) ∷ store) = if text_eq j k then (j, v) ∷ store else (j, u) ∷ set_key k v store

pub conv_delete : Text → Store → Store
unfolding delete_key
conv_delete key store = if is_empty key then store else delete_key key store

found_state : ℕ → Text → Store → Option ConvState → Option ConvState × Store
found_state now key store none = (none, store)
found_state now key store (some st) =
    if expired now st then (none, delete_key key store) else (some st, store)

pub conv_get : ℕ → Text → Store → Option ConvState × Store
unfolding found_state lookup_key
conv_get now key store =
    if is_empty key then (none, store) else found_state now key store (lookup_key key store)

-- The oldest entry that the loop meets: a later one replaces it only when it is strictly older.
older : Option (Text × ℕ) → Text → ℕ → Option (Text × ℕ)
older none k t = some (k, t)
older (some (j, u)) k t = if ltb t u then some (k, t) else some (j, u)

oldest : Option (Text × ℕ) → Store → Option (Text × ℕ)
unfolding older
oldest o [] = o
oldest o ((k, v) ∷ store) = oldest (older o k v.updated) store

evict : Option (Text × ℕ) → Store → Store
evict none store = store
evict (some (k, t)) store = if is_empty k then store else delete_key k store

pub conv_put : ℕ → Text → ConvState → Store → Store
unfolding set_key oldest evict
conv_put now key st store =
    let store' = set_key key (record st { updated = now }) store in
    let fresh = keep (λ (e : Text × ConvState). not (expired now e.1)) store' in
    if is_empty key
    then store
    else if ltb conv_max (length store')
    then (if ltb conv_max (length fresh) then evict (oldest none fresh) fresh else fresh)
    else store'
