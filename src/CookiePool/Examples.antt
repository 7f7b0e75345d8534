-- ===== src/CookiePool/Examples.antt =====
-- Concrete accounts.
use gemini_web2api_go_browse.Prelude.{
  map, is_empty, ◌||◌, ◌==◌, text_eq, index_byte, ℕ, Option, Text, has_prefix, ◌≡◌, ◌≢◌, ◌⊎◌, refl,
  Bool, true, false, List, [], ◌∷◌, none, some, arith, if◌then◌else◌, codes, In,
}
use gemini_web2api_go_browse.CookiePool.Merge.{
  deletes, merge_set_cookie, or_value, before_semicolon,
}
use gemini_web2api_go_browse.CookiePool.Merge.LastSet.{last_set}
use gemini_web2api_go_browse.CookiePool.Merge.Value.{
  merge_set_cookie-value, merge_set_cookie-identity,
}
use gemini_web2api_go_browse.CookiePool.{
  cookie_value, cookie_identity, trim_space, CookieAccount, enabled, disabled, account_by_id,
  update_account, pick_cookie_account_except, update_account_cookie,
}
use gemini_web2api_go_browse.CookiePool.Pick.{Candidate, Earlier, pick_first}
use gemini_web2api_go_browse.CookiePool.Health.{
  Answer, mark_all, streak_after, struck_out, mark_all_lem,
}
use gemini_web2api_go_browse.CookiePool.Seeds.{CookieSeeds, contents, sync_seeded_cookie_file}
use gemini_web2api_go_browse.CookiePool.Seeds.Follow.{sync_seeded_cookie_file-twice}
use gemini_web2api_go_browse.CookiePool.Identity.{
  moved, identities, update_account_cookie-identities,
}

abbrev account : CookieAccount
account = record {
  id = 1;
  label = codes "a";
  cookie = codes "SAPISID=x; __Secure-1PSID=y";
  status = enabled;
  note = [];
  created_at = 1;
  last_used_at = 5;
  last_ok_at = 0;
  last_error = [];
  fail_count = 0;
  proxy_id = 0;
  source = codes "manual";
  profile = [];
  authuser = 1;
}

abbrev accounts : List CookieAccount
accounts = account ∷ record account { id = 2; last_used_at = 3 } ∷ []

abbrev answer : ℕ → ℕ → Answer
answer t s = record { time = t; status = s; error = codes "no" }

abbrev answers : List Answer
answers = answer 10 401 ∷ answer 11 0 ∷ answer 12 403 ∷ answer 13 401 ∷ []

mark_all_lem_example :
    ((b : CookieAccount) × (account_by_id 1 (mark_all 1 answers accounts) ≡ some b)
      × (b.fail_count ≡ streak_after 0 answers)
      × (b.status ≡ (if struck_out 0 answers then disabled else enabled))
      × (b.cookie ≡ account.cookie))
    × ((j : ℕ) → j ≢ 1 → account_by_id j (mark_all 1 answers accounts) ≡ account_by_id j accounts)
unfolding account_by_id
mark_all_lem_example = mark_all_lem 1 answers account accounts (omega arith) refl refl (omega arith)

abbrev skip_none : ℕ → Bool
skip_none i = false

abbrev scans_all : CookieAccount → Bool
scans_all a = true

pick_first_example :
    let (picked, table') = pick_cookie_account_except true scans_all 20 skip_none accounts in
    ((a : CookieAccount) × (true ≡ true)
      × Candidate scans_all skip_none accounts a
      × ((b : CookieAccount) → Candidate scans_all skip_none accounts b → Earlier a b)
      × (picked ≡ some (record a { authuser = 0 }))
      × (table' ≡ update_account a.id (λ r. record r { last_used_at = 20 }) accounts))
    ⊎ (((b : CookieAccount)
          → In b accounts
          → b.status ≡ enabled
          → scans_all b ≡ true
          → true ≡ true
          → skip_none b.id ≡ true)
        × (picked ≡ none)
        × (table' ≡ accounts))
pick_first_example = pick_first true scans_all 20 skip_none accounts

update_account_cookie-identities_example :
    (identities (update_account_cookie true 2 (codes "SAPISID=z") accounts) ≡ identities accounts)
    × (identities (update_account_cookie false 2 (codes "SAPISID=z") accounts) ≡ (
        if 2 == 0 || is_empty (codes "SAPISID=z")
        then identities accounts
        else map (moved 2 (codes "SAPISID=z")) (identities accounts)))
update_account_cookie-identities_example =
    update_account_cookie-identities 2 (codes "SAPISID=z") accounts
      (((λ e. omega (arith, e)), tt), (tt, tt))

abbrev seeds : CookieSeeds
seeds = record {
  table = accounts;
  legacy_done = true;
  seeded_value = codes "SID=a";
  seeded_id = some 2;
}

-- A reader of cookies that keeps a text that does not begin with `{`.
plain : Text → Option Text
plain t = if has_prefix (codes "{") t then none else some t

sync_seeded_cookie_file-twice_example :
    sync_seeded_cookie_file plain 9 40
      (codes "file")
      []
      (contents (codes " SID=b"))
      (sync_seeded_cookie_file plain 8 30 (codes "file") [] (contents (codes " SID=b")) seeds)
    ≡ sync_seeded_cookie_file plain 8 30 (codes "file") [] (contents (codes " SID=b")) seeds
sync_seeded_cookie_file-twice_example =
    sync_seeded_cookie_file-twice plain (codes "file") [] 8 9 30 40 (contents (codes " SID=b"))
      seeds

abbrev session : Text
session = codes "SAPISID=x; __Secure-1PSID=y; SIDCC=old"

abbrev answer_headers : List Text
answer_headers =
    codes "SIDCC=new; path=/; secure" ∷ codes "NID=5; expires=Wed" ∷ codes "SIDCC=newer" ∷ []

merge_set_cookie-value_example :
    cookie_value (merge_set_cookie session answer_headers) (codes "SIDCC")
    ≡ or_value (last_set (codes "SIDCC") answer_headers) (cookie_value session (codes "SIDCC"))
merge_set_cookie-value_example = merge_set_cookie-value session (codes "SIDCC") answer_headers

merge_set_cookie-identity_example :
    cookie_identity (merge_set_cookie session answer_headers) ≡ cookie_identity session
unfolding text_eq trim_space before_semicolon index_byte deletes
merge_set_cookie-identity_example = merge_set_cookie-identity session answer_headers refl refl
