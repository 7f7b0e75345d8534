-- ===== src/Rotate.antt =====
-- internal/app/rotate.go: the session keep-alive of an account, in two requests to Google. `post` and
-- `page` are the network: what RotateCookies answers a cookie and a body, and what the page of the
-- rotation answers a cookie, with the exit's URL. `Rotation` holds the rows of `accounts`, when a
-- 1PSIDTS was last asked for (psidtsLastAt), and the calls of invalidateXSRF, which are all for the
-- account slot 0, and `reads` says of which accounts the database answers the read of their row; `took` is how
-- long a request for a 1PSIDTS takes, and `others` what other callers note meanwhile. An error is its text, in fewer words than the source's but for the status and the body.
pub mod Floor
pub mod Managed
mod Examples
use gemini_web2api_go_browse.Prelude.{
  ℕ, ◌+◌, ◌-◌, ◌*◌, Bool, true, false, not, ◌&&◌, ◌||◌, List, [], ◌∷◌, ◌++◌, Option, none, some,
  ltb, leb, ◌==◌, if◌then◌else◌, take, index, is_empty, any, Text, codes, text_eq,
}
use gemini_web2api_go_browse.CookiePool.{
  CookieAccount, enabled, browser_managed_cookie, cookie_value, trim_space, truncate,
  update_account_cookie,
}
use gemini_web2api_go_browse.CookiePool.Merge.{merge_set_cookie, cookie_subset}
use gemini_web2api_go_browse.AuthUser.{itoa}

-- In seconds: defaultRotateInterval and min1PSIDTSInterval.
abbrev pub default_rotate_interval : ℕ
default_rotate_interval = 600

abbrev pub min_1psidts_interval : ℕ
min_1psidts_interval = 60

abbrev rotate_1psidts_body : Text
rotate_1psidts_body = codes "[000,\"-0000000000000000000\"]"

abbrev rotate_1psidts_cookies : List Text
rotate_1psidts_cookies = codes "__Secure-1PSID" ∷ codes "__Secure-1PSIDTS" ∷ []

-- What a request gives: an error of the network, or a status with its Set-Cookie headers and body.
pub data Answered : Type 0 where
  failed : Text → Answered
  answered : ℕ → List Text → Text → Answered

-- A cookie with the names that were refreshed, or an error.
pub data Renewed : Type 0 where
  renewed : Text → List Text → Renewed
  not_renewed : Text → Renewed

-- The times at which an account was last asked for a 1PSIDTS.
abbrev pub Asked : Type 0
Asked = List (ℕ × ℕ)

unfoldable pub last_asked : ℕ → Asked → Option ℕ
last_asked i [] = none
last_asked i ((j, t) ∷ m) = if j == i then some t else last_asked i m

unfoldable pub set_asked : ℕ → ℕ → Asked → Asked
set_asked i t [] = (i, t) ∷ []
set_asked i t ((j, u) ∷ m) = if j == i then (j, t) ∷ m else (j, u) ∷ set_asked i t m

floor_passed : ℕ → Option ℕ → Bool
floor_passed now none = true
floor_passed now (some last) = leb min_1psidts_interval (now - last)

unfoldable pub allow_1psidts_rotate : ℕ → ℕ → Asked → Bool
unfolding floor_passed
allow_1psidts_rotate now i m = floor_passed now (last_asked i m)

contains : Text → Text → Bool
contains p s = elim (index p s) [ none ↦ false | some k ↦ true ]

-- An error of the network is not noted, so that the next attempt may follow at once.
noted : Option Text → Bool
unfolding contains
noted none = true
noted (some msg) =
    contains (codes "HTTP 401") msg
    || contains (codes "HTTP 403") msg
    || contains (codes "HTTP 429") msg

unfoldable pub note_1psidts_attempt : ℕ → ℕ → Option Text → Asked → Asked
unfolding noted
note_1psidts_attempt now i err m = if noted err then set_asked i now m else m

-- The loop of uniqueKeepOrder.
unique_after : List Text → List Text → List Text
unique_after seen [] = []
unique_after seen (s ∷ ss) =
    if is_empty s || any (text_eq s) seen
    then unique_after seen ss
    else s ∷ unique_after (s ∷ seen) ss

unfoldable pub unique_keep_order : List Text → List Text
unfolding unique_after
unique_keep_order ss = unique_after [] ss

before_equals : Text → Option ℕ → Text
before_equals h none = h
before_equals h (some i) = if ltb 0 i then take i h else h

header_name : Text → Text
unfolding before_equals
header_name h = trim_space (before_equals h (index (codes "=") h))

-- The loop of setCookieNames.
names_after : List Text → List Text → List Text
unfolding header_name
names_after seen [] = []
names_after seen (h ∷ hs) =
    let name = header_name h in
    if is_empty name || any (text_eq name) seen
    then names_after seen hs
    else name ∷ names_after (name ∷ seen) hs

unfoldable pub set_cookie_names : List Text → List Text
unfolding names_after
set_cookie_names hs = names_after [] hs

status_error : Text → ℕ → Text → Text
status_error what status body =
    what ++ (codes " HTTP " ++ (itoa status ++ (codes ": " ++ truncate body 120)))

answer_1psidts : Text → Answered → Renewed
unfolding status_error
answer_1psidts cookie (failed e) = not_renewed e
answer_1psidts cookie (answered status set_cookie body) =
    if status == 200
    then renewed (merge_set_cookie cookie set_cookie) (set_cookie_names set_cookie)
    else not_renewed (status_error (codes "RotateCookies 1PSIDTS") status body)

-- What the page gives: the id of the session and the interval that the server asks for.
pub record Params : Type 0 where
  pub session : Text
  pub interval : ℕ
  pub page_set : List Text

pub data Fetched : Type 0 where
  fetched : Params → Fetched
  not_fetched : Text → Fetched

-- The interval in whole seconds, of what the page has for it where that is a number.
asked_interval : Option ℕ → ℕ
asked_interval none = default_rotate_interval
asked_interval (some sec) = if leb 60 sec && leb sec 3600 then sec else default_rotate_interval

-- A renewed cookie with the interval, or an error.
pub data Kept : Type 0 where
  kept : Text → ℕ → List Text → Kept
  not_kept : Text → Kept

pub record Rotation : Type 0 where
  pub table : List CookieAccount
  pub asked : Asked
  pub dropped : List Text
  pub reads : ℕ → Bool
  pub took : ℕ
  pub others : Asked → Asked

-- What rotateAccount returns: the interval, or an error.
pub data Alive : Type 0 where
  alive : ℕ → List Text → Alive
  not_alive : Text → Alive

error_of : Renewed → Option Text
error_of (renewed cookie names) = none
error_of (not_renewed e) = some e

answer_sidcc : Text → Params → Answered → Kept
unfolding status_error
answer_sidcc cookie p (failed e) = not_kept e
answer_sidcc cookie p (answered status set_cookie body) =
    if status == 200
    then kept (merge_set_cookie cookie set_cookie) p.interval
        (set_cookie_names (p.page_set ++ set_cookie))
    else not_kept (status_error (codes "RotateCookies") status body)

sidcc_body : Text → Text
sidcc_body session = codes "[658,\"" ++ (session ++ codes "\"]")

-- What the two steps leave: the cookie, the interval, the names and the errors.
renewed_cookie : Text → Renewed → Text
renewed_cookie cookie (renewed c names) = c
renewed_cookie cookie (not_renewed e) = cookie

renewed_names : Renewed → List Text
renewed_names (renewed c names) = names
renewed_names (not_renewed e) = []

kept_cookie : Text → Kept → Text
kept_cookie cookie (kept c interval names) = c
kept_cookie cookie (not_kept e) = cookie

kept_names : Kept → List Text
kept_names (kept c interval names) = names
kept_names (not_kept e) = []

kept_interval : Kept → ℕ
kept_interval (kept c interval names) = if ltb 0 interval then interval else default_rotate_interval
kept_interval (not_kept e) = default_rotate_interval

-- The error where neither step did anything: of the first step, or else of the second.
first_error : Renewed → Kept → Option Text
first_error (not_renewed e) k = some e
first_error (renewed c names) (not_kept e) = some e
first_error (renewed c names) (kept c' interval names') = none

outcome : ℕ → List Text → Bool → Option Text → Alive
outcome interval names changed none = alive interval names
outcome interval names changed (some e) =
    if not changed && is_empty names then not_alive e else alive interval names

-- A changed cookie is written to its row, and the token of the old one is dropped.
write_back : CookieAccount → Text → Rotation → Rotation
write_back a cookie r = if text_eq cookie a.cookie then r else record r {
  table = update_account_cookie (r.reads a.id) a.id cookie r.table;
  dropped = a.cookie ∷ r.dropped;
}

-- The loop over accountList: its rows are read before the first is kept alive.
next_interval : ℕ → Alive → ℕ
next_interval next (not_alive e) = next
next_interval next (alive interval names) = if ltb 0 interval then interval else next

found_params : List Text → Option (Text × Option ℕ) → Fetched
unfolding asked_interval
found_params set_cookie none = not_fetched (codes "no init in the page")
found_params set_cookie (some (session, sec)) =
    fetched (record { session = session; interval = asked_interval sec; page_set = set_cookie })

-- `init_params` is the regular expression on the page: the session's id, and its last number in whole
-- seconds if it is one.
module _ (post : Text → Text → Text → Answered) (page : Text → Text → Answered)
    (init_params : Text → Option (Text × Option ℕ)) where
  -- The result, with the bodies that were posted for it.
  unfoldable pub rotate_1psidts : Text → Text → Renewed × List Text
  unfolding answer_1psidts
  rotate_1psidts cookie proxy_url = (
    answer_1psidts cookie
        (post (cookie_subset cookie rotate_1psidts_cookies) rotate_1psidts_body proxy_url),
    rotate_1psidts_body ∷ [],
  )

  -- The times are checked at `now`, under a lock, and noted at `later`, under it again: in between, `others`
  -- is what other callers make of them.
  unfoldable pub try_rotate_1psidts :
      ℕ → ℕ → (Asked → Asked) → ℕ → Text → Text → Asked → Renewed × List Text × Asked
  unfolding error_of
  try_rotate_1psidts now later others i cookie proxy_url m =
      if is_empty (cookie_value cookie (codes "__Secure-1PSID"))
      then (renewed cookie [], [], m)
      else if allow_1psidts_rotate now i m
      then (let (r, posted) = rotate_1psidts cookie proxy_url in
          (r, posted, note_1psidts_attempt later i (error_of r) (others m)))
      else (renewed cookie [], [], m)

  read_page : Answered → Fetched
  unfolding found_params status_error
  read_page (failed e) = not_fetched e
  read_page (answered status set_cookie body) =
      if status == 200
      then found_params set_cookie (init_params body)
      else not_fetched (status_error (codes "page") status [])

  unfoldable pub fetch_rotate_params : Text → Text → Fetched
  unfolding read_page
  fetch_rotate_params cookie proxy_url = read_page (page cookie proxy_url)

  after_page : Text → Text → Fetched → Kept
  unfolding answer_sidcc sidcc_body
  after_page cookie proxy_url (not_fetched e) = not_kept e
  after_page cookie proxy_url (fetched p) =
      let c = merge_set_cookie cookie p.page_set in
      answer_sidcc c p (post c (sidcc_body p.session) proxy_url)

  unfoldable pub rotate_sidcc : Text → Text → Kept
  unfolding after_page
  rotate_sidcc cookie proxy_url = after_page cookie proxy_url (fetch_rotate_params cookie proxy_url)

  -- `proxy_url` is proxyURLByID of the account's proxy.
  unfoldable pub rotate_account : ℕ → Text → CookieAccount → Rotation → Alive × Rotation
  unfolding renewed_cookie renewed_names kept_cookie kept_names kept_interval first_error outcome
      write_back
  rotate_account now proxy_url a r =
      if browser_managed_cookie a
      then (alive default_rotate_interval [], r)
      else (let (step, posted, asked) =
            try_rotate_1psidts now (now + r.took) r.others a.id a.cookie proxy_url r.asked in
          let c1 = renewed_cookie a.cookie step in
          let second = rotate_sidcc c1 proxy_url in
          let c2 = kept_cookie c1 second in
          let names = unique_keep_order (renewed_names step ++ kept_names second) in
          (
            outcome (kept_interval second) names (not (text_eq c2 a.cookie))
                (first_error step second),
            write_back a c2 (record r { asked = asked }),
          ))

  rotate_rows : (ℕ → Text) → (ℕ → ℕ) → List CookieAccount → ℕ → Rotation → ℕ × Rotation
  unfolding next_interval
  rotate_rows url_of now_of [] next r = (next, r)
  rotate_rows url_of now_of (a ∷ rows) next r =
      if text_eq a.status enabled
      then (let (out, r') = rotate_account (now_of a.id) (url_of a.proxy_id) a r in
          rotate_rows url_of now_of rows (next_interval next out) r')
      else rotate_rows url_of now_of rows next r

  -- `url_of` is proxyURLByID, which gives 0 the empty text.
  unfoldable pub rotate_all_accounts : (ℕ → Text) → (ℕ → ℕ) → Rotation → ℕ × Rotation
  unfolding rotate_rows
  rotate_all_accounts url_of now_of r = rotate_rows url_of now_of r.table default_rotate_interval r
