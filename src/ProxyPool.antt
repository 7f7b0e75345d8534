-- ===== src/ProxyPool.antt =====
-- internal/app/proxy.go, and acquireSlot of internal/app/gemini.go: the proxy pool, its circuit
-- breaker and the choice of an exit. `table` is the rows of `proxies` in the order of their ids, and
-- `cache` is proxyCache. A database call that fails is an argument that says so.
pub mod Breaker
pub mod Pick
pub mod Direct
pub mod Held
pub mod Seeds
mod Examples
use gemini_web2api_go_browse.Prelude.{
  ℕ, zero, suc, ◌+◌, ◌-◌, ◌*◌, ◌%◌, ◌^◌, ◌≡◌, Bool, true, false, ◌&&◌, ◌||◌, List, [], ◌∷◌, ◌++◌,
  Option, none, some, ltb, leb, ◌==◌, if◌then◌else◌, length, get_elem?, keep, map, Text, codes,
  has_prefix, is_empty, text_eq,
}
use gemini_web2api_go_browse.RateLimit.{Limits, Reason, rph, Slots, try_slot_acquire}

pub record Proxy : Type 0 where
  pub id : ℕ
  pub name : Text
  pub url : Text
  pub enabled : Bool
  pub weight : ℕ
  pub fail_count : ℕ
  pub last_used : ℕ
  pub last_error : Text
  pub created_at : ℕ

-- `Proxy{}`, which stands for the direct exit.
abbrev pub no_proxy : Proxy
no_proxy = record {
  id = 0;
  name = [];
  url = [];
  enabled = false;
  weight = 0;
  fail_count = 0;
  last_used = 0;
  last_error = [];
  created_at = 0;
}

pub record Pool : Type 0 where
  pub table : List Proxy
  pub cache : List Proxy
  pub cursor : ℕ

abbrev pub proxy_fail_threshold : ℕ
proxy_fail_threshold = 5

-- loadProxies: a read that fails at any point keeps the cache.
unfoldable pub load_proxies : Bool → Pool → Pool
load_proxies true p = record p { cache = p.table }
load_proxies false p = p

unfoldable pub proxy_usable : Proxy → ℕ → ℕ → Bool
proxy_usable p now cooldown =
    if p.enabled
    then if ltb p.fail_count proxy_fail_threshold
      then true
      else if cooldown == 0
      then false
      else leb (cooldown * 60) (now - p.last_used)
    else false

pub find_proxy : ℕ → List Proxy → Option Proxy
find_proxy i [] = none
find_proxy i (p ∷ ps) = if p.id == i then some p else find_proxy i ps

-- The loop over the pool from the cursor: `n` rounds are left, `i` are done.
pub round_robin : Limits → ℕ → List Proxy → ℕ → ℕ → ℕ → Slots → Option Proxy × Slots
round_robin l now pool start zero i m = (none, m)
round_robin l now pool start (suc n) i m = elim (get_elem? pool ((start + i) % length pool)) [
  | none ↦ (none, m)
  | some p ↦
      let (reason, m') = try_slot_acquire l now p.id m in
      let rest = round_robin l now pool start n (i + 1) m' in
      elim reason [ none ↦ (some p, m') | some _ ↦ rest ]
]

-- The preferred exit, when it is in the pool and its slot has room.
try_preferred : Limits → ℕ → Option Proxy → Slots → Option Proxy × Slots
try_preferred l now none m = (none, m)
try_preferred l now (some p) m =
    let (reason, m') = try_slot_acquire l now p.id m in
    elim reason [ none ↦ (some p, m') | some _ ↦ (none, m') ]

abbrev preferred_in : ℕ → List Proxy → Option Proxy
preferred_in prefer pool = if ltb 0 prefer then find_proxy prefer pool else none

pub record Settings : Type 0 where
  pub limits : Limits
  pub proxy_cooldown_min : ℕ
  pub fallback_direct : Bool

abbrev pub usable_pool : Settings → ℕ → List Proxy → List Proxy
usable_pool c now = keep λ p. proxy_usable p now c.proxy_cooldown_min

-- What a choice leaves: the exit, the slots, and the cursor, which only the round robin moves.
pub record Picked : Type 0 where
  pub chosen : Option Proxy
  pub slots : Slots
  pub cursor : ℕ

after_preferred : Settings → ℕ → List Proxy → ℕ → Option Proxy × Slots → Picked
after_preferred c now pool cursor (some p, m) = record {
  chosen = some p;
  slots = m;
  cursor = cursor;
}
after_preferred c now pool cursor (none, m) =
    let (found, m') = round_robin c.limits now pool cursor (length pool) 0 m in
    record { chosen = found; slots = m'; cursor = (cursor + 1) % 2 ^ 64 }

-- An empty cache and an empty pool of usable proxies both give no exit.
unfoldable pub pick_proxy_preferring : Settings → ℕ → ℕ → Pool → Slots → Picked
unfolding find_proxy try_preferred after_preferred round_robin
pick_proxy_preferring c now prefer p m =
    let pool = usable_pool c now p.cache in
    if is_empty pool
    then record { chosen = none; slots = m; cursor = p.cursor }
    else after_preferred c now pool p.cursor
        (try_preferred c.limits now (preferred_in prefer pool) m)

-- RateLimitError: its ProxyID is -1 for the proxies and 0 for the direct exit.
pub data RateLimitError : Type 0 where
  all_proxies : Reason → RateLimitError
  direct_exit : Reason → RateLimitError

pub data Acquired : Type 0 where
  ok : Proxy → Acquired
  err : RateLimitError → Acquired

acquire_direct : Settings → ℕ → Slots → Acquired × Slots
acquire_direct c now m =
    let (reason, m') = try_slot_acquire c.limits now 0 m in
    (elim reason [ none ↦ ok no_proxy | some r ↦ err (direct_exit r) ], m')

acquire_fallback : Settings → ℕ → Picked → Acquired × Slots
unfolding acquire_direct
acquire_fallback c now picked = elim picked.chosen [
  | some p ↦ (ok p, picked.slots)
  | none ↦
      if c.fallback_direct
      then acquire_direct c now picked.slots
      else (err (all_proxies rph), picked.slots)
]

-- acquireSlot of gemini.go, with the pool's cursor moved by the choice.
unfoldable pub acquire_slot : Settings → ℕ → ℕ → Pool → Slots → Acquired × Slots × Pool
unfolding acquire_direct acquire_fallback
acquire_slot c now prefer p m =
    if is_empty p.cache
    then (let (r, m') = acquire_direct c now m in (r, m', p))
    else (let picked = pick_proxy_preferring c now prefer p m in
        let (r, m') = acquire_fallback c now picked in (r, m', record p { cursor = picked.cursor }))

-- The row that a result of a request makes of a proxy's row.
abbrev pub with_result : ℕ → Bool → Text → Proxy → Proxy
with_result now success error p =
    if success
    then record p { fail_count = 0; last_used = now; last_error = [] }
    else record p { fail_count = p.fail_count + 1; last_used = now; last_error = error }

-- UPDATE proxies SET … WHERE id=?
pub update_rows : ℕ → (Proxy → Proxy) → List Proxy → List Proxy
update_rows i f [] = []
update_rows i f (p ∷ ps) = (if p.id == i then f p else p) ∷ update_rows i f ps

-- The loop over the cache, which stops at the first row with the id.
update_first : ℕ → (Proxy → Proxy) → List Proxy → List Proxy
update_first i f [] = []
update_first i f (p ∷ ps) = if p.id == i then f p ∷ ps else p ∷ update_first i f ps

-- recordProxyResult: the statement may fail, and its error is dropped.
unfoldable pub record_proxy_result : Bool → ℕ → ℕ → Bool → Text → Pool → Pool
unfolding update_rows update_first
record_proxy_result db_ok now i success error p = if i == 0 then p else record p {
  table = if db_ok then update_rows i (with_result now success error) p.table else p.table;
  cache = update_first i (with_result now success error) p.cache;
}

name_of : Option Proxy → Text
name_of none = []
name_of (some p) = p.name

pub proxy_name_by_id : ℕ → Pool → Text
unfolding find_proxy name_of
proxy_name_by_id i p = if i == 0 then [] else name_of (find_proxy i p.cache)

usable_at : ℕ → ℕ → Option Proxy → Bool
usable_at now cooldown none = false
usable_at now cooldown (some p) = proxy_usable p now cooldown

pub proxy_usable_by_id : Settings → ℕ → ℕ → Pool → Bool
unfolding find_proxy usable_at
proxy_usable_by_id c now i p =
    if i == 0 then false else usable_at now c.proxy_cooldown_min (find_proxy i p.cache)

url_of : Option Proxy → Text
url_of none = []
url_of (some p) = p.url

pub proxy_url_by_id : ℕ → Pool → Text
unfolding find_proxy url_of
proxy_url_by_id i p = if i == 0 then [] else url_of (find_proxy i p.cache)
