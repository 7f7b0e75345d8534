-- ===== src/Xsrf/Examples.antt =====
-- Concrete pages.
use gemini_web2api_go_browse.Prelude.{
  ℕ, ◌+◌, ◌<◌, ◌≡◌, ◌≢◌, ◌≤◌, ◌⊎◌, refl, [], Option, none, some, Text, codes,
}
use gemini_web2api_go_browse.Xsrf.{
  XsrfEntry, XsrfCache, Result, success, find_entry, cookie_key, get_xsrf, invalidate_xsrf,
  fetch_app_tokens, token_of, get_entry,
}
use gemini_web2api_go_browse.Xsrf.Cache.{get_xsrf-again}

abbrev digest : Text → Text
digest c = codes "0123456789abcdef"

abbrev whole : Text → Option Text
whole body = some body

abbrev nothing : Text → Option Text
nothing body = none

abbrev page : Text → Text → ℕ → Result Text
page cookie proxy_url authuser = success (codes "AJx:1700000000000")

abbrev empty_cache : XsrfCache
empty_cache = []

abbrev signed : Text
signed = codes "SAPISID=x"

abbrev after_first : XsrfCache
after_first = (get_xsrf digest whole nothing nothing page 100 signed [] 1 empty_cache).1

got_token :
    (get_xsrf digest whole nothing nothing page 100 signed [] 1 empty_cache).0
    ≡ success (codes "AJx:1700000000000")
unfolding get_xsrf get_entry find_entry fetch_app_tokens
got_token = refl

get_xsrf-again_example :
    ((e : XsrfEntry) × (find_entry (cookie_key digest signed 1) after_first ≡ some e)
      × (100 < e.fetched + 1200)
      × ((find_entry (cookie_key digest signed 1) empty_cache ≡ some e) ⊎ (e.fetched ≡ 100))
      × ((page' : Text → Text → ℕ → Result Text) (later : ℕ) (proxy' : Text)
          → later < e.fetched + 1200
          → get_xsrf digest whole nothing nothing page' later signed proxy' 1 after_first
            ≡ (success (codes "AJx:1700000000000"), after_first))
      × ((page' : Text → Text → ℕ → Result Text) (later : ℕ) (proxy' : Text)
          → e.fetched + 1200 ≤ later
          → (get_xsrf digest whole nothing nothing page' later signed proxy' 1 after_first).0
            ≡ token_of (fetch_app_tokens digest whole nothing nothing page' later signed proxy' 1)))
    × ((c' : Text) (u' : ℕ)
        → 1 ≢ u'
        → find_entry (cookie_key digest c' u') after_first
          ≡ find_entry (cookie_key digest c' u') empty_cache)
    × ((page' : Text → Text → ℕ → Result Text) (later : ℕ) (proxy' : Text)
        → (get_xsrf digest whole nothing nothing page' later signed proxy' 1
            (invalidate_xsrf digest signed 1 after_first)).0
          ≡ token_of (fetch_app_tokens digest whole nothing nothing page' later signed proxy' 1))
get_xsrf-again_example =
    get_xsrf-again digest whole nothing nothing page 100 signed [] (codes "AJx:1700000000000") 1
      empty_cache (λ c. refl) refl got_token
