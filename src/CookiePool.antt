-- ===== src/CookiePool.antt =====
-- internal/app/cookie_pool.go: the rows of `accounts` and the operations on them. `table` is the rows
-- in the order of their ids, which is the order in which the database reads them. Time is the Unix
-- second that a call reads; the id of a new row is the database's and an argument.
pub mod Pick
pub mod Health
pub mod Identity
pub mod Seeds
pub mod Merge
pub mod Trim
pub mod Kept
mod Examples
use gemini_web2api_go_browse.Prelude.{
  ℕ, zero, suc, ◌+◌, ◌-◌, ◌≡◌, refl, Bool, true, false, not, ◌&&◌, ◌||◌, List, [], ◌∷◌, ◌++◌,
  Option, none, some, ltb, leb, ◌==◌, if◌then◌else◌, length, keep, any, map, reverse, take, drop,
  Text, codes, text_eq, is_empty, index_byte,
}

pub record CookieAccount : Type 0 where
  pub id : ℕ
  pub label : Text
  pub cookie : Text
  pub status : Text
  pub note : Text
  pub created_at : ℕ
  pub last_used_at : ℕ
  pub last_ok_at : ℕ
  pub last_error : Text
  pub fail_count : ℕ
  pub proxy_id : ℕ
  pub source : Text
  pub profile : Text
  pub authuser : ℕ

abbrev pub enabled : Text
enabled = codes "enabled"

abbrev pub disabled : Text
disabled = codes "disabled"

unfoldable pub browser_managed_cookie : CookieAccount → Bool
browser_managed_cookie a = text_eq a.source (codes "browser") || text_eq a.source (codes "remote")

-- strings.TrimSpace, on the white space of ASCII.
is_space : ℕ → Bool
is_space b = b == 0x20 || (leb 9 b && leb b 13)

trim_left : Text → Text
unfolding is_space
trim_left [] = []
trim_left (b ∷ s) = if is_space b then trim_left s else b ∷ s

unfoldable pub trim_space : Text → Text
unfolding trim_left
trim_space s = reverse (trim_left (reverse (trim_left s)))

-- strings.Split at one byte: a text has one part more than it has such bytes.
put_first : ℕ → List Text → List Text
put_first b [] = (b ∷ []) ∷ []
put_first b (p ∷ ps) = (b ∷ p) ∷ ps

pub split_byte : ℕ → Text → List Text
unfolding put_first
split_byte sep [] = [] ∷ []
split_byte sep (b ∷ s) = if b == sep then [] ∷ split_byte sep s else put_first b (split_byte sep s)

-- The pair of one part: the text before the first `=` is not empty.
add_pair : Text → Option ℕ → List (Text × Text) → List (Text × Text)
add_pair p none out = out
add_pair p (some i) out = if ltb 0 i then (take i p, drop (i + 1) p) ∷ out else out

cookie_pairs : List Text → List (Text × Text)
unfolding add_pair
cookie_pairs [] = []
cookie_pairs (s ∷ ps) = let p = trim_space s in add_pair p (index_byte b'=' p) (cookie_pairs ps)

unfoldable pub split_cookie_pairs : Text → List (Text × Text)
unfolding cookie_pairs split_byte
split_cookie_pairs cookie = cookie_pairs (split_byte b';' cookie)

value_in : Text → List (Text × Text) → Text
value_in name [] = []
value_in name ((k, v) ∷ kvs) = if text_eq k name then v else value_in name kvs

unfoldable pub cookie_value : Text → Text → Text
unfolding value_in split_cookie_pairs
cookie_value cookie name = value_in name (split_cookie_pairs cookie)

unfoldable pub extract_sapisid : Text → Text
extract_sapisid cookie = cookie_value cookie (codes "SAPISID")

pub cookie_names : Text → List Text
unfolding split_cookie_pairs
cookie_names cookie = map (λ (kv : Text × Text). kv.0) (split_cookie_pairs cookie)

-- The loop of cookieIdentity: the last value of each name counts.
identity_of : Text → Text → List (Text × Text) → Text
identity_of sapisid psid [] = sapisid ++ (codes "|" ++ psid)
identity_of sapisid psid ((k, v) ∷ kvs) =
    if text_eq k (codes "SAPISID")
    then identity_of v psid kvs
    else if text_eq k (codes "__Secure-1PSID")
    then identity_of sapisid v kvs
    else identity_of sapisid psid kvs

pub cookie_identity : Text → Text
unfolding identity_of split_cookie_pairs
cookie_identity cookie = identity_of [] [] (split_cookie_pairs cookie)

-- accountInsertAuthUser; `none` is the error of an empty cookie.
pub account_insert_authuser :
    ℕ → ℕ → Text → Text → Text → ℕ → List CookieAccount → Option (List CookieAccount)
unfolding trim_space
account_insert_authuser new_id now label cookie note authuser table =
    let c = trim_space cookie in
    if is_empty c
    then none
    else some (
        table
        ++ record {
          id = new_id;
          label = trim_space label;
          cookie = c;
          status = enabled;
          note = trim_space note;
          created_at = now;
          last_used_at = 0;
          last_ok_at = 0;
          last_error = [];
          fail_count = 0;
          proxy_id = 0;
          source = codes "manual";
          profile = [];
          authuser = authuser;
        }
          ∷ [])

unfoldable pub account_by_id : ℕ → List CookieAccount → Option CookieAccount
account_by_id i [] = none
account_by_id i (a ∷ rest) = if a.id == i then some a else account_by_id i rest

-- UPDATE accounts SET … WHERE id=?
pub update_account : ℕ → (CookieAccount → CookieAccount) → List CookieAccount → List CookieAccount
update_account i f [] = []
update_account i f (a ∷ rest) = (if a.id == i then f a else a) ∷ update_account i f rest

pub account_delete : ℕ → List CookieAccount → List CookieAccount
account_delete i table = keep (λ a. not (a.id == i)) table

-- `none` is the error of an unknown status.
pub account_set_status : ℕ → Text → List CookieAccount → Option (List CookieAccount)
unfolding update_account
account_set_status i status table =
    if text_eq status enabled || text_eq status disabled
    then some (update_account i (λ a. record a { status = status }) table)
    else none

pub account_update_meta : ℕ → Text → Text → List CookieAccount → List CookieAccount
unfolding update_account trim_space
account_update_meta i label note =
    update_account i λ a. record a { label = trim_space label; note = trim_space note }

unfoldable pub account_count : List CookieAccount → ℕ × ℕ
account_count table = (length table, length (keep (λ a. text_eq a.status enabled) table))

pub pool_has_cookie : Text → List CookieAccount → Bool
pool_has_cookie cookie table = any (λ a. text_eq a.cookie cookie) table

unfoldable pub bind_account_proxy : ℕ → ℕ → List CookieAccount → List CookieAccount
bind_account_proxy account_id proxy_id table =
    if account_id == 0
    then table
    else update_account account_id (λ a. record a { proxy_id = proxy_id }) table

-- ORDER BY fail_count ASC, last_used_at ASC, id ASC
pub before : CookieAccount → CookieAccount → Bool
before a b =
    if ltb a.fail_count b.fail_count
    then true
    else if ltb b.fail_count a.fail_count
    then false
    else if ltb a.last_used_at b.last_used_at
    then true
    else if ltb b.last_used_at a.last_used_at
    then false
    else leb a.id b.id

insert_row : CookieAccount → List CookieAccount → List CookieAccount
insert_row a [] = a ∷ []
insert_row a (b ∷ bs) = if before a b then a ∷ b ∷ bs else b ∷ insert_row a bs

order_rows : List CookieAccount → List CookieAccount
unfolding insert_row
order_rows [] = []
order_rows (a ∷ rest) = insert_row a (order_rows rest)

-- The loop over the rows: `passed` are those that cannot be scanned, or that the caller skips.
first_not_in : (CookieAccount → Bool) → List CookieAccount → Option CookieAccount
first_not_in passed [] = none
first_not_in passed (a ∷ rest) = if passed a then first_not_in passed rest else some a

-- pickCookieAccountExcept: the SELECT reads every column but authuser, which stays 0. `answers` says whether
-- the database answers the SELECT, and `scans` whether a row of it can be scanned.
take_account :
    ℕ → Option CookieAccount → List CookieAccount → Option CookieAccount × List CookieAccount
take_account now none table = (none, table)
take_account now (some a) table = (
  some (record a { authuser = 0 }),
  update_account a.id (λ r. record r { last_used_at = now }) table,
)

unfoldable pub pick_cookie_account_except :
    Bool
    → (CookieAccount → Bool)
    → ℕ
    → (ℕ → Bool)
    → List CookieAccount
    → Option CookieAccount × List CookieAccount
unfolding order_rows first_not_in take_account
pick_cookie_account_except answers scans now skip table =
    let rows = order_rows (keep (λ a. text_eq a.status enabled) table) in
    if answers
    then take_account now (first_not_in (λ a. not (scans a) || skip a.id) rows) table
    else (none, table)

unfoldable pub pick_cookie_account :
    Bool
    → (CookieAccount → Bool)
    → ℕ
    → List CookieAccount
    → Option CookieAccount × List CookieAccount
pick_cookie_account answers scans now = pick_cookie_account_except answers scans now (λ i. false)

abbrev pub max_cookie_auth_failures : ℕ
max_cookie_auth_failures = 3

-- The row that autoDisableIfDead leaves: the UPDATE repeats the check of the status.
disable_row : CookieAccount → CookieAccount
disable_row a = if text_eq a.status enabled then record a { status = disabled } else a

dead : Option CookieAccount → Bool
dead none = false
dead (some a) = text_eq a.status enabled && leb max_cookie_auth_failures a.fail_count

unfoldable pub auto_disable_if_dead : ℕ → List CookieAccount → List CookieAccount
unfolding dead disable_row account_by_id update_account
auto_disable_if_dead i table =
    if dead (account_by_id i table) then update_account i disable_row table else table

-- truncate of gemini.go.
pub truncate : Text → ℕ → Text
truncate s n = if leb (length s) n then s else take n s

failed_row : Text → CookieAccount → CookieAccount
failed_row error a = record a { fail_count = a.fail_count + 1; last_error = error }

unfoldable pub mark_account_result : ℕ → ℕ → Bool → Text → List CookieAccount → List CookieAccount
unfolding failed_row update_account truncate
mark_account_result now i success error table =
    if i == 0
    then table
    else if success
    then update_account i (λ a. record a { last_ok_at = now; fail_count = 0; last_error = [] })
        table
    else auto_disable_if_dead i (update_account i (failed_row (truncate error 200)) table)

unfoldable pub mark_cookie_by_status : ℕ → ℕ → ℕ → Text → List CookieAccount → List CookieAccount
unfolding update_account truncate
mark_cookie_by_status now i status_code error table =
    if status_code == 200
    then mark_account_result now i true [] table
    else if status_code == 401 || status_code == 403
    then mark_account_result now i false error table
    else if ltb 0 i && not (is_empty error)
    then update_account i (λ a. record a { last_error = truncate error 200 }) table
    else table

-- updateAccountCookie: the row with the id, if there is one, must be of the same identity. Where the read of
-- the row fails with an error, nothing is compared. `read_ok` says whether the database answers it.
same_identity : Text → Option CookieAccount → Bool
same_identity cookie none = true
same_identity cookie (some a) = text_eq (cookie_identity cookie) (cookie_identity a.cookie)

unfoldable pub update_account_cookie : Bool → ℕ → Text → List CookieAccount → List CookieAccount
unfolding same_identity account_by_id update_account
update_account_cookie read_ok i cookie table =
    if i == 0 || is_empty cookie
    then table
    else if not read_ok || same_identity cookie (account_by_id i table)
    then update_account i (λ a. record a { cookie = cookie }) table
    else table
