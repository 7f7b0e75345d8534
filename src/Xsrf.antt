-- ===== src/Xsrf.antt =====
-- internal/app/xsrf.go: the tokens of a signed-in page and their cache. `sum` is the short digest of a
-- cookie in hexadecimal, `app_page` is fetchAppPage over the network at the time of the call, and the
-- `find_` parameters are the three regular expressions on the page. An error is its text.
pub mod Cache
mod Examples
use gemini_web2api_go_browse.Prelude.{
  ℕ, ◌+◌, Bool, true, false, ◌&&◌, ◌||◌, List, [], ◌∷◌, ◌++◌, Option, none, some, ltb,
  if◌then◌else◌, length, take, drop, index, has_prefix, is_empty, Text, codes, text_eq,
}
use gemini_web2api_go_browse.CookiePool.{trim_space}
use gemini_web2api_go_browse.AuthUser.{itoa}

pub record XsrfEntry : Type 0 where
  pub token : Text
  pub push_id : Text
  pub pctx : Text
  pub fetched : ℕ

-- xsrfTTL, in seconds.
abbrev pub xsrf_ttl : ℕ
xsrf_ttl = 1200

-- xsrfCache, from a key to an entry.
abbrev pub XsrfCache : Type 0
XsrfCache = List (Text × XsrfEntry)

unfoldable pub find_entry : Text → XsrfCache → Option XsrfEntry
find_entry key [] = none
find_entry key ((k, e) ∷ m) = if text_eq k key then some e else find_entry key m

unfoldable pub set_entry : Text → XsrfEntry → XsrfCache → XsrfCache
set_entry key e [] = (key, e) ∷ []
set_entry key e ((k, f) ∷ m) = if text_eq k key then (k, e) ∷ m else (k, f) ∷ set_entry key e m

unfoldable pub delete_entry : Text → XsrfCache → XsrfCache
delete_entry key [] = []
delete_entry key ((k, e) ∷ m) =
    let rest = delete_entry key m in if text_eq k key then rest else (k, e) ∷ rest

-- A value or the text of an error.
pub data Result {ℓ} (A : Type ℓ) : Type ℓ where
  success : A → Result A
  failure : Text → Result A

text_or_empty : Option Text → Text
text_or_empty none = []
text_or_empty (some t) = t

abbrev pub no_token : Text
no_token = codes "no SNlM0e in page (cookie expired or not signed in)"

-- The entry of a cache that is younger than the limit.
fresh : ℕ → Option XsrfEntry → Option XsrfEntry
fresh now none = none
fresh now (some e) = if ltb now (e.fetched + xsrf_ttl) then some e else none

module _ (sum : Text → Text) where
  unfoldable pub cookie_key : Text → ℕ → Text
  cookie_key cookie authuser = sum cookie ++ (codes "|u" ++ itoa authuser)

  unfoldable pub invalidate_xsrf : Text → ℕ → XsrfCache → XsrfCache
  invalidate_xsrf cookie authuser m =
      if is_empty cookie then m else delete_entry (cookie_key cookie authuser) m

pub token_of : Result XsrfEntry → Result Text
token_of (failure e) = failure e
token_of (success e) = success e.token

uploads_of : Result XsrfEntry → Result (Text × Text)
uploads_of (failure e) = failure e
uploads_of (success e) = success (e.push_id, e.pctx)

store_entry : Text → Result XsrfEntry → XsrfCache → Result XsrfEntry × XsrfCache
store_entry key (failure e) m = (failure e, m)
store_entry key (success e) m = (success e, set_entry key e m)

cached_or_fetched :
    Text → Result XsrfEntry → XsrfCache → Option XsrfEntry → Result XsrfEntry × XsrfCache
unfolding store_entry
cached_or_fetched key got m (some e) = (success e, m)
cached_or_fetched key got m none = store_entry key got m

module _ (sum : Text → Text) (find_token find_push find_pctx : Text → Option Text) where
  entry_of : ℕ → Text → Text → Option Text → Result XsrfEntry
  unfolding text_or_empty
  entry_of now cookie body (some t) = success (record {
    token = t;
    push_id = text_or_empty (find_push body);
    pctx = text_or_empty (find_pctx body);
    fetched = now;
  })
  entry_of now cookie body none =
      if is_empty cookie
      then success (record {
        token = [];
        push_id = text_or_empty (find_push body);
        pctx = text_or_empty (find_pctx body);
        fetched = now;
      })
      else failure no_token

  read_app : ℕ → Text → Result Text → Result XsrfEntry
  unfolding entry_of
  read_app now cookie (failure e) = failure e
  read_app now cookie (success body) = entry_of now cookie body (find_token body)

  module _ (app_page : Text → Text → ℕ → Result Text) where
    unfoldable pub fetch_app_tokens : ℕ → Text → Text → ℕ → Result XsrfEntry
    unfolding read_app
    fetch_app_tokens now cookie proxy_url authuser =
        read_app now cookie (app_page cookie proxy_url authuser)

    -- The part that getXSRF and getUploadTokens share.
    unfoldable pub get_entry : ℕ → Text → Text → ℕ → XsrfCache → Result XsrfEntry × XsrfCache
    unfolding fresh cached_or_fetched
    get_entry now cookie proxy_url authuser m =
        let key = cookie_key sum cookie authuser in
        cached_or_fetched key (fetch_app_tokens now cookie proxy_url authuser) m
          (fresh now (find_entry key m))

    unfoldable pub get_xsrf : ℕ → Text → Text → ℕ → XsrfCache → Result Text × XsrfCache
    unfolding token_of
    get_xsrf now cookie proxy_url authuser m =
        if is_empty cookie
        then (success [], m)
        else (let (got, m') = get_entry now cookie proxy_url authuser m in (token_of got, m'))

    unfoldable pub get_upload_tokens :
        ℕ → Text → Text → ℕ → XsrfCache → Result (Text × Text) × XsrfCache
    unfolding uploads_of
    get_upload_tokens now cookie proxy_url authuser m =
        let (got, m') = get_entry now cookie proxy_url authuser m in (uploads_of got, m')

-- strings.Contains(raw, `"xsrf"`)
unfoldable pub is_xsrf_error : Text → Bool
is_xsrf_error raw = elim (index (codes "\"xsrf\"") raw) [ none ↦ false | some i ↦ true ]

first_word : Text → Option ℕ → Text
first_word rest none = rest
first_word rest (some i) = if ltb 0 i then take i rest else rest

-- The status 401 for an error that says so, and 0 for every other; `none` is no error.
unfoldable pub xsrf_auth_status : Option Text → ℕ
unfolding first_word
xsrf_auth_status none = 0
xsrf_auth_status (some msg) =
    let pfx = codes "fetch /app: HTTP " in
    let rest = trim_space (drop (length pfx) msg) in
    let code = first_word rest (index (codes " ") rest) in
    if has_prefix pfx msg && (text_eq code (codes "401") || text_eq code (codes "403"))
    then 401
    else 0
