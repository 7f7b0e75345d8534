-- ===== src/ProxyPool/Seeds.antt =====
-- internal/app/proxy.go, lines 102 to 234 and 325 to 410: changes of the pool from the panel, and the
-- proxy that the start parameters name. The database works, the id of a new row is its choice and an
-- argument, and so are the time and the value of the old configuration. `seeded_id` is the number in
-- the text that the program itself wrote, `none` for the empty one.
use gemini_web2api_go_browse.Prelude.{
  ℕ, ◌≡◌, refl, sym, ap, ◌∙◌, Bool, true, false, not, ◌&&◌, ◌||◌, List, [], ◌∷◌, ◌++◌, Option, none,
  some, ◌==◌, if◌then◌else◌, keep, any, Text, codes, text_eq, text_eq_refl, has_prefix, is_empty,
  Bool-cases, Option-cases, inl, inr, some_ne_none,
}
use gemini_web2api_go_browse.CookiePool.{trim_space}
use gemini_web2api_go_browse.ModelGuard.{lower}
use gemini_web2api_go_browse.ProxyPool.{Proxy, Pool, load_proxies, find_proxy, update_rows}

pub validate_proxy_url : Text → Bool
validate_proxy_url s =
    let low = lower s in
    has_prefix (codes "http://") low
    || (has_prefix (codes "https://") low
        || (has_prefix (codes "socks5://") low || has_prefix (codes "socks5h://") low))

-- `none` is the error of a missing or unusable value.
pub proxy_create : ℕ → ℕ → Text → Text → ℕ → Pool → Option Pool
unfolding validate_proxy_url
proxy_create new_id now name url weight p =
    if is_empty name || is_empty url
    then none
    else if not (validate_proxy_url url)
    then none
    else (let row : Proxy = record {
      id = new_id;
      name = name;
      url = url;
      enabled = true;
      weight = if weight == 0 then 1 else weight;
      fail_count = 0;
      last_used = 0;
      last_error = [];
      created_at = now;
    } in
        some (load_proxies true (record p { table = p.table ++ row ∷ [] })))

-- The assignments of proxyUpdate: an empty text and a missing value change nothing.
set_name : Text → Proxy → Proxy
set_name name p = if is_empty name then p else record p { name = name }

set_url : Text → Proxy → Proxy
set_url url p = if is_empty url then p else record p { url = url }

set_enabled : Option Bool → Proxy → Proxy
set_enabled none p = p
set_enabled (some b) p = record p { enabled = b }

set_weight : Option ℕ → Proxy → Proxy
set_weight none p = p
set_weight (some w) p = record p { weight = w }

abbrev missing {ℓ} : {A : Type ℓ} → Option A → Bool
missing none = true
missing (some a) = false

pub proxy_update : ℕ → Text → Text → Option Bool → Option ℕ → Pool → Pool
unfolding set_name set_url set_enabled set_weight
proxy_update i name url enabled weight p =
    if is_empty name && (is_empty url && (missing enabled && missing weight))
    then p
    else load_proxies true (record p {
      table =
          update_rows i
            (λ q. set_weight weight (set_enabled enabled (set_url url (set_name name q)))) p.table;
    })

pub proxy_delete : ℕ → Pool → Pool
proxy_delete i p =
    load_proxies true (record p { table = keep (λ (q : Proxy). not (q.id == i)) p.table })

pub proxy_reset_failures : ℕ → Pool → Pool
proxy_reset_failures i p =
    load_proxies true (record p {
      table = update_rows i (λ q. record q { fail_count = 0; last_error = [] }) p.table;
    })

pub pool_has_proxy_url : Text → Pool → Bool
pool_has_proxy_url url p = any (λ (q : Proxy). text_eq q.url url) p.cache

pub record Seeded : Type 0 where
  pub pool : Pool
  pub legacy_done : Bool
  pub seeded_url : Text
  pub seeded_id : Option ℕ

created : Seeded → Option Pool → Option Seeded
created s none = none
created s (some p) = some (record s { pool = p })

-- migrateLegacyStaticProxy, with the bytes of the name that it gives.
migrated : Seeded → Option Pool → Seeded
migrated s none = s
migrated s (some p) = record s { pool = p; legacy_done = true }

pub migrate_legacy_static_proxy : ℕ → ℕ → Text → Text → Seeded → Seeded
unfolding proxy_create pool_has_proxy_url migrated
migrate_legacy_static_proxy new_id now name legacy s =
    let v = trim_space legacy in
    if s.legacy_done
    then s
    else if is_empty v || pool_has_proxy_url v s.pool
    then record s { legacy_done = true }
    else migrated s (proxy_create new_id now name v 1 s.pool)

-- The row is withdrawn only while it has the url that it was made with.
same_url : Text → Option Proxy → Bool
same_url url none = false
same_url url (some q) = text_eq q.url url

drop_row : ℕ → Text → Pool → Pool
unfolding same_url proxy_delete
drop_row i url p = if same_url url (find_proxy i p.cache) then proxy_delete i p else p

drop_seeded_proxy : Text → Option ℕ → Pool → Pool
unfolding drop_row
drop_seeded_proxy url none p = p
drop_seeded_proxy url (some i) p = if is_empty url || i == 0 then p else drop_row i url p

seeded : ℕ → Text → Pool → Seeded → Option Pool → Seeded
seeded new_id url dropped s none = record s { pool = dropped }
seeded new_id url dropped s (some p) = record s {
  pool = p;
  seeded_url = url;
  seeded_id = some new_id;
}

pub sync_seeded_proxy : ℕ → ℕ → Text → Text → Seeded → Seeded
unfolding drop_seeded_proxy pool_has_proxy_url proxy_create seeded
sync_seeded_proxy new_id now name proxy s =
    let url = trim_space proxy in
    let dropped = drop_seeded_proxy s.seeded_url s.seeded_id s.pool in
    if text_eq url s.seeded_url
    then s
    else if is_empty url || pool_has_proxy_url url dropped
    then record s { pool = dropped; seeded_url = url; seeded_id = none }
    else seeded new_id url dropped s (proxy_create new_id now name url 1 dropped)

find-deleted :
    (i : ℕ) (ps : List Proxy) → find_proxy i (keep (λ (q : Proxy). not (q.id == i)) ps) ≡ none
unfolding find_proxy
find-deleted i [] = refl
find-deleted i (p ∷ ps) = elim (Bool-cases (p.id == i)) [
  | inl y ↦ rw y (find-deleted i ps)
  | inr n ↦ rw n (rw n (find-deleted i ps))
]

drop_row-twice :
    (i : ℕ) (url : Text) (p : Pool) → drop_row i url (drop_row i url p) ≡ drop_row i url p
unfolding drop_row same_url proxy_delete load_proxies
drop_row-twice i url p = elim (Bool-cases (same_url url (find_proxy i p.cache))) [
  | inl y ↦ rw y (rw (find-deleted i p.table) refl)
  | inr n ↦ rw n (rw n refl)
]

drop-twice :
    (url : Text) (i : Option ℕ) (p : Pool)
    → drop_seeded_proxy url i (drop_seeded_proxy url i p) ≡ drop_seeded_proxy url i p
unfolding drop_seeded_proxy
drop-twice url none p = refl
drop-twice url (some i) p = elim (Bool-cases (is_empty url || i == 0)) [
  | inl y ↦ rw y refl
  | inr n ↦ rw n (drop_row-twice i url p)
]

-- The three ways of a start.
module _ (i now : ℕ) (name proxy : Text) (s : Seeded) where
  dropped : Pool
  dropped = drop_seeded_proxy s.seeded_url s.seeded_id s.pool

  sync_known :
      text_eq (trim_space proxy) s.seeded_url ≡ true → sync_seeded_proxy i now name proxy s ≡ s
  unfolding sync_seeded_proxy
  sync_known y = rw y refl

  sync_taken :
      text_eq (trim_space proxy) s.seeded_url ≡ false
      → (is_empty (trim_space proxy) || pool_has_proxy_url (trim_space proxy) dropped) ≡ true
      → sync_seeded_proxy i now name proxy s
        ≡ record s { pool = dropped; seeded_url = trim_space proxy; seeded_id = none }
  unfolding sync_seeded_proxy dropped
  sync_taken n y = rw (n, y) refl

  sync_new :
      text_eq (trim_space proxy) s.seeded_url ≡ false
      → (is_empty (trim_space proxy) || pool_has_proxy_url (trim_space proxy) dropped) ≡ false
      → sync_seeded_proxy i now name proxy s
        ≡ seeded i
            (trim_space proxy)
            dropped
            s
            (proxy_create i now name (trim_space proxy) 1 dropped)
  unfolding sync_seeded_proxy dropped
  sync_new n z = rw (n, z) refl

create-none :
    (i j now later : ℕ) (name url : Text) (w : ℕ) (p : Pool)
    → proxy_create i now name url w p ≡ none
    → proxy_create j later name url w p ≡ none
unfolding proxy_create
create-none i j now later name url w p e = elim (Bool-cases (is_empty name || is_empty url)) [
  | inl y ↦ rw y refl
  | inr n ↦ elim (Bool-cases (not (validate_proxy_url url))) [
    | inl y ↦ rw (n, y) refl
    | inr m ↦ absurd (some_ne_none (rw (n, m) at e))
  ]
]

-- Whatever the start parameter and the state: a second start with the same parameter changes nothing,
-- neither the pool nor what is recorded, whatever id and time it has, and whether or not the first
-- one could use the parameter.
pub sync_seeded_proxy-twice :
    (i j now later : ℕ) (name proxy : Text) (s : Seeded)
    → sync_seeded_proxy j later name proxy (sync_seeded_proxy i now name proxy s)
      ≡ sync_seeded_proxy i now name proxy s
unfolding seeded dropped
sync_seeded_proxy-twice i j now later name proxy s =
    let u = trim_space proxy in
    let first = sync_seeded_proxy i now name proxy s in
    let again = λ (t : Seeded) (e : first ≡ t) (k : sync_seeded_proxy j later name proxy t ≡ t).
      ap (sync_seeded_proxy j later name proxy) e ∙ k ∙ sym e in
    elim (Bool-cases (text_eq u s.seeded_url)) [
      | inl y ↦ again s (sync_known i now name proxy s y) (sync_known j later name proxy s y)
      | inr n ↦
          elim (Bool-cases (is_empty u || pool_has_proxy_url u (dropped i now name proxy s))) [
            | inl y ↦
                let t : Seeded = record s {
                  pool = dropped i now name proxy s;
                  seeded_url = u;
                  seeded_id = none;
                } in
                again t (sync_taken i now name proxy s n y)
                  (sync_known j later name proxy t (text_eq_refl u))
            | inr z ↦
                let made = proxy_create i now name u 1 (dropped i now name proxy s) in
                elim (Option-cases made) [
                  | inl e ↦
                      let p = dropped i now name proxy s in
                      let t : Seeded = record s { pool = p } in
                      let same = drop-twice s.seeded_url s.seeded_id s.pool in
                      again t (sync_new i now name proxy s n z ∙ ap (seeded i u p s) e) (
                        sync_new j later name proxy t n
                          (ap (λ q. is_empty u || pool_has_proxy_url u q) same ∙ z)
                        ∙ ap (λ q. seeded j u q t (proxy_create j later name u 1 q)) same
                        ∙ ap (seeded j u p t) (create-none i j now later name u 1 p e))
                  | inr (p, e) ↦
                      let t : Seeded = record s { pool = p; seeded_url = u; seeded_id = some i } in
                      again t
                        (sync_new i now name proxy s n z
                          ∙ ap (seeded i u (dropped i now name proxy s) s) e)
                        (sync_known j later name proxy t (text_eq_refl u))
                ]
          ]
    ]
