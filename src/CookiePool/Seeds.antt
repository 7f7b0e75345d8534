-- ===== src/CookiePool/Seeds.antt =====
-- internal/app/cookie_pool.go, lines 117 to 143 and 257 to 353: cookies added by hand, and the ones
-- that the configuration brings. `normalize` is normalizeCookie, which reads JSON, and is `none` on its
-- error. The database works; `seeded_id` is the number in the text that the program itself wrote.
pub mod Follow
use gemini_web2api_go_browse.Prelude.{
  ℕ, ◌≡◌, refl, sym, ap, ◌∙◌, Bool, true, false, not, ◌||◌, List, [], ◌∷◌, Option, none, some, ◌==◌,
  if◌then◌else◌, keep, Text, codes, text_eq, text_eq_refl, is_empty, Bool-cases, Option-cases, inl,
  inr, some_ne_none,
}
use gemini_web2api_go_browse.CookiePool.{
  CookieAccount, trim_space, extract_sapisid, account_insert_authuser, account_by_id,
  account_delete, pool_has_cookie,
}

-- What is at --cookie-file.
pub data CookieFile : Type 0 where
  not_given unreadable : CookieFile
  contents : Text → CookieFile

pub record CookieSeeds : Type 0 where
  pub table : List CookieAccount
  pub legacy_done : Bool
  pub seeded_value : Text
  pub seeded_id : Option ℕ

-- The row is withdrawn only while it has the cookie that it was made with.
same_cookie : Text → Option CookieAccount → Bool
same_cookie cookie none = false
same_cookie cookie (some a) = text_eq a.cookie cookie

drop_account : ℕ → Text → List CookieAccount → List CookieAccount
unfolding same_cookie account_delete
drop_account i cookie table =
    if same_cookie cookie (account_by_id i table) then account_delete i table else table

pub drop_seeded_cookie : Text → Option ℕ → List CookieAccount → List CookieAccount
unfolding drop_account
drop_seeded_cookie prev none table = table
drop_seeded_cookie prev (some i) table =
    if is_empty prev || i == 0 then table else drop_account i prev table

module _ (normalize : Text → Option Text) where
  -- accountAdopt, which does not ask for a SAPISID.
  adopt : Option Text → ℕ → ℕ → Text → Text → List CookieAccount → Option (List CookieAccount)
  adopt none new_id now label note table = none
  adopt (some c) new_id now label note table =
      account_insert_authuser new_id now label c note 0 table

  pub account_adopt : ℕ → ℕ → Text → Text → Text → List CookieAccount → Option (List CookieAccount)
  unfolding adopt
  account_adopt new_id now label cookie note table =
      adopt (normalize cookie) new_id now label note table

  add : Option Text → ℕ → ℕ → Text → Text → List CookieAccount → Option (List CookieAccount)
  add none new_id now label note table = none
  add (some c) new_id now label note table =
      if is_empty (extract_sapisid c)
      then none
      else account_insert_authuser new_id now label c note 0 table

  pub account_add : ℕ → ℕ → Text → Text → Text → List CookieAccount → Option (List CookieAccount)
  unfolding add
  account_add new_id now label cookie note table =
      add (normalize cookie) new_id now label note table

  -- The end of migrateLegacyCookie, by what accountAdopt returns.
  taken_over : CookieSeeds → Option (List CookieAccount) → CookieSeeds
  taken_over s none = s
  taken_over s (some table) = record s { table = table; legacy_done = true }

  take_over : ℕ → ℕ → Text → Text → CookieSeeds → Option Text → CookieSeeds
  unfolding taken_over account_adopt
  take_over new_id now label note s none = s
  take_over new_id now label note s (some cookie) =
      if pool_has_cookie cookie s.table
      then record s { legacy_done = true }
      else taken_over s (account_adopt new_id now label cookie note s.table)

  -- `label` and `note` are the texts that the source gives the row.
  pub migrate_legacy_cookie : ℕ → ℕ → Text → Text → Text → CookieSeeds → CookieSeeds
  unfolding take_over
  migrate_legacy_cookie new_id now label note google_cookie s =
      let raw = trim_space google_cookie in
      if s.legacy_done
      then s
      else if is_empty raw
      then record s { legacy_done = true }
      else take_over new_id now label note s (normalize raw)

  seeded_with :
      ℕ → Text → List CookieAccount → CookieSeeds → Option (List CookieAccount) → CookieSeeds
  seeded_with new_id cur dropped s none = record s { table = dropped }
  seeded_with new_id cur dropped s (some table) = record s {
    table = table;
    seeded_value = cur;
    seeded_id = some new_id;
  }

  -- syncSeededCookieFile from the normalized text on, empty when no file is given.
  follow : ℕ → ℕ → Text → Text → Text → CookieSeeds → CookieSeeds
  unfolding seeded_with account_adopt
  follow new_id now label note cur s =
      let dropped = drop_seeded_cookie s.seeded_value s.seeded_id s.table in
      if text_eq cur s.seeded_value
      then s
      else if is_empty cur || pool_has_cookie cur dropped
      then record s { table = dropped; seeded_value = cur; seeded_id = none }
      else seeded_with new_id cur dropped s (account_adopt new_id now label cur note dropped)

  follow_read : ℕ → ℕ → Text → Text → Option Text → CookieSeeds → CookieSeeds
  unfolding follow
  follow_read new_id now label note none s = s
  follow_read new_id now label note (some cur) s = follow new_id now label note cur s

  pub sync_seeded_cookie_file : ℕ → ℕ → Text → Text → CookieFile → CookieSeeds → CookieSeeds
  unfolding follow follow_read
  sync_seeded_cookie_file new_id now label note not_given s = follow new_id now label note [] s
  sync_seeded_cookie_file new_id now label note unreadable s = s
  sync_seeded_cookie_file new_id now label note (contents text) s =
      let cur = trim_space text in
      if is_empty cur
      then follow new_id now label note [] s
      else follow_read new_id now label note (normalize cur) s
