-- ===== src/Ingest/Examples.antt =====
-- Concrete pushes of cookies.
use gemini_web2api_go_browse.Prelude.{
  ℕ, pos, ◌≡◌, refl, true, [], Option, none, some, Text, codes, has_prefix, index, index_byte,
  text_eq, ◌==◌, if◌then◌else◌,
}
use gemini_web2api_go_browse.AuthUser.{last_index, is_legacy_multi_account_profile}
use gemini_web2api_go_browse.ModelGuard.{lower}
use gemini_web2api_go_browse.CookiePool.{
  trim_space, cookie_value, split_cookie_pairs, extract_sapisid,
}
use gemini_web2api_go_browse.Ingest.{
  PageIdentity, IngestBody, browser_store_cookie, handle_browser_ingest, sanitize_profile_name,
  check_slot_identity, scanned, stored,
}
use gemini_web2api_go_browse.Ingest.Accepts.{Accepts, handle_browser_ingest-Accepts}
use gemini_web2api_go_browse.Ingest.Rows.{OneRow, browser_store_cookie-OneRow}

abbrev jar : Text
jar = codes "SAPISID=s1; __Secure-1PSID=p1"

abbrev pushed : IngestBody
pushed = record {
  profile = codes "home";
  cookie = jar;
  logged_in = some true;
  label = [];
  account = codes "0";
  page_authuser = some (pos 2);
  account_email = codes "Ann@Mail.test";
}

abbrev pages : Text → ℕ → Option PageIdentity
pages cookie u =
    if u == 2
    then some (record { email = codes "ann@mail.test"; slot = some 2; logged_in = true })
    else none

pushed_first : (handle_browser_ingest pages 1 100 pushed []).0 ≡ stored (codes "home") 2
unfolding handle_browser_ingest is_legacy_multi_account_profile last_index trim_space
    extract_sapisid cookie_value split_cookie_pairs lower sanitize_profile_name has_prefix
    check_slot_identity browser_store_cookie index index_byte text_eq
pushed_first = refl

-- The row of a first push cannot be read back.
unread : scanned (handle_browser_ingest pages 1 100 pushed []).1 ≡ []
unfolding handle_browser_ingest scanned is_legacy_multi_account_profile last_index trim_space
    extract_sapisid cookie_value split_cookie_pairs lower sanitize_profile_name has_prefix
    check_slot_identity browser_store_cookie index index_byte text_eq
unread = refl

handle_browser_ingest-Accepts_example :
    Accepts pages pushed [] (handle_browser_ingest pages 1 100 pushed [])
handle_browser_ingest-Accepts_example = handle_browser_ingest-Accepts pages 1 100 pushed [] tt

browser_store_cookie-OneRow_example :
    OneRow
      (codes "home")
      jar
      (codes "remote")
      2
      (browser_store_cookie 1 100 [] (codes "home") (codes "old") (codes "browser") 2 [])
      (browser_store_cookie 2 200
        (codes "new")
        (codes "home")
        jar
        (codes "remote")
        2
        (browser_store_cookie 1 100 [] (codes "home") (codes "old") (codes "browser") 2 []))
unfolding browser_store_cookie
browser_store_cookie-OneRow_example =
    browser_store_cookie-OneRow 2 200 (codes "new") (codes "home") jar (codes "remote") 2
      (browser_store_cookie 1 100 [] (codes "home") (codes "old") (codes "browser") 2 []) (tt, tt)
