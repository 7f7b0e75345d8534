-- ===== src/Rotate/Examples.antt =====
-- Concrete rotations.
use gemini_web2api_go_browse.Prelude.{ℕ, ◌≡◌, List, [], ◌∷◌, Option, some, Text, codes, true, arith}
use gemini_web2api_go_browse.CookiePool.{CookieAccount, enabled, account_by_id}
use gemini_web2api_go_browse.CookiePool.Identity.{identities, DistinctAccounts}
use gemini_web2api_go_browse.Rotate.{
  Answered, failed, answered, Asked, Rotation, rotate_all_accounts,
}
use gemini_web2api_go_browse.Rotate.Floor.{Attempt, Spaced, sends, sends-Spaced}
use gemini_web2api_go_browse.Rotate.Managed.{left_alone, rotate_all_accounts-identities}

abbrev account : CookieAccount
account = record {
  id = 1;
  label = codes "a";
  cookie = codes "SAPISID=x; __Secure-1PSID=y";
  status = enabled;
  note = [];
  created_at = 1;
  last_used_at = 5;
  last_ok_at = 0;
  last_error = [];
  fail_count = 0;
  proxy_id = 0;
  source = codes "manual";
  profile = [];
  authuser = 0;
}

abbrev browser_account : CookieAccount
browser_account = record account { id = 2; source = codes "browser" }

abbrev refreshing : Text → Text → Text → Answered
refreshing cookie body proxy_url = answered 200 (codes "__Secure-1PSIDTS=z; path=/" ∷ []) []

abbrev down : Text → Text → Text → Answered
down cookie body proxy_url = failed (codes "EOF")

abbrev shown_page : Text → Text → Answered
shown_page cookie proxy_url = answered 200 [] (codes "page")

abbrev params : Text → Option (Text × Option ℕ)
params body = some (codes "4162", some 900)

abbrev try_at : ℕ → (Text → Text → Text → Answered) → Attempt
try_at t post = record {
  now = t;
  took = 1;
  account = 1;
  cookie = account.cookie;
  proxy_url = [];
  post = post;
}

abbrev tries : List Attempt
tries = try_at 100 refreshing ∷ try_at 130 refreshing ∷ try_at 160 down ∷ try_at 161 refreshing ∷ []

abbrev never : Asked
never = []

sends-Spaced_example : Spaced shown_page params (sends shown_page params tries never)
sends-Spaced_example = sends-Spaced shown_page params tries never

abbrev pool : Rotation
pool = record {
  table = account ∷ browser_account ∷ [];
  asked = [];
  dropped = [];
  reads = λ i. true;
  took = 1;
  others = λ m. m;
}

abbrev direct : ℕ → Text
direct i = []

abbrev at_noon : ℕ → ℕ
at_noon i = 43200

pool-Distinct : DistinctAccounts pool.table
pool-Distinct = (((λ e. omega (arith, e)), tt), (tt, tt))

rotate_all_accounts-identities_example :
    let r' = (rotate_all_accounts refreshing shown_page params direct at_noon pool).1 in
    (((i : ℕ) → pool.reads i ≡ true) → identities r'.table ≡ identities pool.table)
    × ((j : ℕ) (a : CookieAccount)
        → account_by_id j pool.table ≡ some a
        → left_alone a ≡ true
        → account_by_id j r'.table ≡ some a)
rotate_all_accounts-identities_example =
    rotate_all_accounts-identities refreshing shown_page params direct at_noon pool pool-Distinct
