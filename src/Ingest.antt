-- ===== src/Ingest.antt =====
-- internal/app/browser_ingest.go, checkSlotIdentity of internal/app/account_identity.go and
-- browserStoreCookieSourceAuthUser of internal/app/browser_cdp.go: a cookie that a browser pushes, the
-- checks before it is stored, and its row. The page of an account slot, which verifySlotIdentity fetches
-- over an exit and reads by regular expressions, is a parameter. The report of the extension's mode, the
-- check of the model afterwards and the texts of notes and replies are not modelled. The database is
-- taken to answer the statements of the store.
pub mod Accepts
pub mod Rows
mod Examples
use gemini_web2api_go_browse.Prelude.{
  ℕ, ℤ, pos, negsuc, ◌+◌, ◌-◌, Bool, true, false, not, ◌&&◌, ◌||◌, List, [], ◌∷◌, ◌++◌, Option,
  none, some, ltb, leb, ◌==◌, if◌then◌else◌, length, keep, map, index, is_empty, Text, codes,
  text_eq,
}
use gemini_web2api_go_browse.CookiePool.{CookieAccount, enabled, trim_space, extract_sapisid}
use gemini_web2api_go_browse.AuthUser.{
  auth_user_from_profile, is_legacy_multi_account_profile, atoi,
}
use gemini_web2api_go_browse.ModelGuard.{lower}

-- What the page of a slot says of itself; `none` as its slot is the source's -1.
pub record PageIdentity : Type 0 where
  pub email : Text
  pub slot : Option ℕ
  pub logged_in : Bool

pub data SlotCheck : Type 0 where
  confirmed : PageIdentity → SlotCheck
  not_signed_in : SlotCheck
  other_slot : SlotCheck
  other_email : SlotCheck
  no_email : SlotCheck

slot_differs : ℕ → Option ℕ → Bool
slot_differs authuser none = false
slot_differs authuser (some n) = not (n == authuser)

unfoldable pub check_slot_identity : PageIdentity → ℕ → Text → SlotCheck
unfolding slot_differs
check_slot_identity page authuser want_email =
    let want = lower (trim_space want_email) in
    if not page.logged_in
    then not_signed_in
    else if slot_differs authuser page.slot
    then other_slot
    else if not (is_empty want) && not (is_empty page.email) && not (text_eq page.email want)
    then other_email
    else if not (is_empty want) && is_empty page.email
    then no_email
    else confirmed page

-- sanitizeProfileName on ASCII: at most 40 bytes, and `_` for every other byte.
safe_byte : ℕ → Bool
safe_byte b =
    (leb 0x61 b && leb b 0x7a)
    || (leb 0x41 b && leb b 0x5a)
    || (leb 0x30 b && leb b 0x39)
    || b == b'.'
    || b == b'_'
    || b == b'-'

sanitized : ℕ → Text → Text
unfolding safe_byte
sanitized room [] = []
sanitized room (b ∷ s) =
    let c = if safe_byte b then b else b'_' in
    if leb room 1 then c ∷ [] else c ∷ sanitized (room - 1) s

unfoldable pub sanitize_profile_name : Text → Text
unfolding sanitized
sanitize_profile_name s = let out = sanitized 40 s in if is_empty out then codes "remote1" else out

-- The fields of the body that decide.
pub record IngestBody : Type 0 where
  pub profile : Text
  pub cookie : Text
  pub logged_in : Option Bool
  pub label : Text
  pub account : Text
  pub page_authuser : Option ℤ
  pub account_email : Text

-- A row with whether its last_ok_at holds the empty text in place of a number.
pub record StoredRow : Type 0 where
  pub row : CookieAccount
  pub ok_is_text : Bool

pub same_place : Text → ℕ → StoredRow → Bool
same_place profile authuser r = text_eq r.row.profile profile && r.row.authuser == authuser

-- SELECT … WHERE profile=? AND authuser=? ORDER BY id DESC LIMIT 1, on rows in the order of their ids.
last_place : Text → ℕ → List StoredRow → Option ℕ
unfolding same_place
last_place profile authuser [] = none
last_place profile authuser (r ∷ rows) =
    let rest = last_place profile authuser rows in
    elim rest [
      | some i ↦ some i
      | none ↦ if same_place profile authuser r then some r.row.id else none
    ]

refreshed_row : ℕ → Text → Text → Text → ℕ → StoredRow → StoredRow
refreshed_row now label cookie source authuser r = record {
  row = record r.row {
    cookie = cookie;
    label = trim_space label;
    last_ok_at = now;
    last_error = [];
    fail_count = 0;
    source = source;
    authuser = authuser;
  };
  ok_is_text = false;
}

-- UPDATE … WHERE id=?
update_stored : ℕ → (StoredRow → StoredRow) → List StoredRow → List StoredRow
update_stored i f [] = []
update_stored i f (r ∷ rows) = (if r.row.id == i then f r else r) ∷ update_stored i f rows

-- The VALUES of the INSERT put '' into last_ok_at and 0 into last_error.
new_row : ℕ → ℕ → Text → Text → Text → Text → ℕ → StoredRow
new_row new_id now label profile cookie source authuser = record {
  row = record {
    id = new_id;
    label = trim_space (if is_empty label then profile else label);
    cookie = cookie;
    status = enabled;
    note = [];
    created_at = now;
    last_used_at = now;
    last_ok_at = 0;
    last_error = codes "0";
    fail_count = 0;
    proxy_id = 0;
    source = source;
    profile = profile;
    authuser = authuser;
  };
  ok_is_text = true;
}

store_at : ℕ → ℕ → Text → Text → Text → Text → ℕ → List StoredRow → Option ℕ → List StoredRow
unfolding same_place refreshed_row update_stored new_row
store_at new_id now label profile cookie source authuser table none =
    table ++ new_row new_id now label profile cookie source authuser ∷ []
store_at new_id now label profile cookie source authuser table (some i) =
    keep (λ r. not (same_place profile authuser r) || r.row.id == i)
      (update_stored i (refreshed_row now label cookie source authuser) table)

unfoldable pub browser_store_cookie :
    ℕ → ℕ → Text → Text → Text → Text → ℕ → List StoredRow → List StoredRow
unfolding store_at last_place
browser_store_cookie new_id now label profile cookie source authuser table =
    store_at new_id now label profile cookie source authuser table
      (last_place profile authuser table)

-- A read of the rows scans last_ok_at into a number and skips a row where it cannot.
unfoldable pub scanned : List StoredRow → List CookieAccount
scanned rows = map (λ r. r.row) (keep (λ r. not r.ok_is_text) rows)

-- The answers of the handler: what is refused, and what is stored under which profile and slot.
pub data Ingested : Type 0 where
  legacy_profile : Ingested
  no_cookie : Ingested
  not_logged_in : Ingested
  incomplete_cookie : Ingested
  bad_slot : Ingested
  unverified : SlotCheck → Ingested
  slot_unreachable : Ingested
  stored : Text → ℕ → Ingested

pub contains : Text → Text → Bool
contains p s = elim (index p s) [ none ↦ false | some i ↦ true ]

slot_from_account : Option ℕ → Option ℕ
slot_from_account none = none
slot_from_account (some n) = if ltb 9 n then none else some n

-- The slot of the bound page, of the account, or of the profile; `none` where it is refused.
requested_slot : IngestBody → Text → Option ℤ → Option ℕ
unfolding slot_from_account
requested_slot p profile (some (pos n)) = if ltb 9 n then none else some n
requested_slot p profile (some (negsuc n)) = none
requested_slot p profile none =
    if is_empty (trim_space p.account)
    then some (auth_user_from_profile profile)
    else slot_from_account (atoi (trim_space p.account))

profile_of : IngestBody → Text
profile_of p =
    sanitize_profile_name
      (let s = trim_space p.profile in if is_empty s then codes "remote1" else s)

logged_out : Option Bool → Bool
logged_out none = false
logged_out (some b) = not b

label_for : IngestBody → Text → PageIdentity → Text
label_for p profile page =
    let label =
      (let l = trim_space p.label in if is_empty l then codes "remote:" ++ profile else l) in
    if not (is_empty page.email) && not (contains (codes "@") label)
    then codes "remote:" ++ (profile ++ (codes " " ++ page.email))
    else label

-- What the page of a slot shows, over an exit of the pool; `none` where it cannot be opened.
module _ (page_of : Text → ℕ → Option PageIdentity) (new_id now : ℕ) (p : IngestBody) where
  by_check : Text → Text → ℕ → SlotCheck → List StoredRow → Ingested × List StoredRow
  unfolding label_for
  by_check profile cookie authuser (confirmed page) table = (
    stored profile authuser,
    browser_store_cookie new_id now (label_for p profile page) profile cookie (codes "remote")
        authuser table,
  )
  by_check profile cookie authuser c table = (unverified c, table)

  verified : Text → Text → ℕ → Option PageIdentity → List StoredRow → Ingested × List StoredRow
  unfolding by_check
  verified profile cookie authuser none table = (slot_unreachable, table)
  verified profile cookie authuser (some page) table =
      by_check profile cookie authuser (check_slot_identity page authuser p.account_email) table

  with_slot : Text → Text → Option ℕ → List StoredRow → Ingested × List StoredRow
  unfolding verified
  with_slot profile cookie none table = (bad_slot, table)
  with_slot profile cookie (some u) table = verified profile cookie u (page_of cookie u) table

  unfoldable pub handle_browser_ingest : List StoredRow → Ingested × List StoredRow
  unfolding profile_of logged_out contains requested_slot with_slot
  handle_browser_ingest table =
      let profile = profile_of p in
      let cookie = trim_space p.cookie in
      if is_legacy_multi_account_profile profile
      then (legacy_profile, table)
      else if is_empty cookie
      then (no_cookie, table)
      else if logged_out p.logged_in
      then (not_logged_in, table)
      else if is_empty (extract_sapisid cookie) || not (contains (codes "__Secure-1PSID=") cookie)
      then (incomplete_cookie, table)
      else with_slot profile cookie (requested_slot p profile p.page_authuser) table
