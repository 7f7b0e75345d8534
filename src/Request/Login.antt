-- ===== src/Request/Login.antt =====
-- The choice of an account of streamGenerateWithFiles and the loop that finds one whose token can be had.
pub mod Rounds
use gemini_web2api_go_browse.Prelude.{
  ℕ, zero, suc, ◌+◌, Bool, true, false, not, ◌||◌, List, [], ◌∷◌, Option, none, some, leb, ◌==◌,
  if◌then◌else◌, length, any, Text,
}
use gemini_web2api_go_browse.ProxyPool.{Proxy, proxy_usable_by_id}
use gemini_web2api_go_browse.CookiePool.{
  CookieAccount, account_by_id, bind_account_proxy, browser_managed_cookie, extract_sapisid,
  mark_cookie_by_status, pick_cookie_account, pick_cookie_account_except,
}
use gemini_web2api_go_browse.Models.{ModelConfig}
use gemini_web2api_go_browse.Runtime.{RuntimeConfig}
use gemini_web2api_go_browse.Xsrf.{Result, success, failure}
use gemini_web2api_go_browse.Request.{
  Upstream, World, settings_of, anon_first_eligible, account_display_name,
}

abbrev pub max_cookie_tries : ℕ
max_cookie_tries = 3

-- cookieStr, sapisid, xsrfToken and authUser.
pub record Session : Type 0 where
  pub cookie_str : Text
  pub sapisid : Text
  pub xsrf_token : Text
  pub auth_user : ℕ

abbrev pub no_session : Session
no_session = record { cookie_str = []; sapisid = []; xsrf_token = []; auth_user = 0 }

-- The variables of the loop, with the account that a failure is shown for.
pub record Login (S : Type 0) : Type 0 where
  pub world : World S
  pub tried : List ℕ
  pub rotated_once : List ℕ
  pub last_error : Option Text
  pub cookie_id : ℕ
  pub cookie_label : Text
  pub session : Session

-- tried[i] = true
unfoldable pub add_id : ℕ → List ℕ → List ℕ
add_id i ids = if any (λ j. j == i) ids then ids else i ∷ ids

module _ {S : Type 0} (up : Upstream S) (c : RuntimeConfig) where
  pub pick_account : ModelConfig → Bool → World S → Option CookieAccount × World S
  pick_account mc has_attachment w =
      if anon_first_eligible c mc has_attachment
      then (none, w)
      else (let (picked, rows) =
            pick_cookie_account (up.pool_answers w.outside) (up.scans w.outside)
              (up.clock w.outside) w.accounts in
          (picked, record w { accounts = rows }))

module _ {S : Type 0} (up : Upstream S) (c : RuntimeConfig) (exit : Proxy) where
  -- The exit is bound to an account that has none, or whose own exit is not usable.
  bind_exit : CookieAccount → World S → World S
  bind_exit a w =
      if a.proxy_id == 0
        || not (proxy_usable_by_id (settings_of c) (up.clock w.outside) a.proxy_id w.proxies)
      then record w { accounts = bind_account_proxy a.id exit.id w.accounts }
      else w

  signed_in : CookieAccount → Text → Login S → Login S
  unfolding bind_exit
  signed_in a token l = record l {
    session = record {
      cookie_str = a.cookie;
      sapisid = extract_sapisid a.cookie;
      xsrf_token = token;
      auth_user = a.authuser;
    };
    world = bind_exit a l.world;
  }

  -- The second try of an account, after its rotation: the row as it is then, and its token.
  second_token : Option CookieAccount → World S → Option (CookieAccount × Text) × World S
  second_token none w = (none, w)
  second_token (some fresh) w =
      let (got, s) = up.get_xsrf fresh.cookie exit.url fresh.authuser w.outside in
      (elim got [ success tok ↦ some (fresh, tok) | failure e ↦ none ], record w { outside = s })

  rescue : CookieAccount → Login S → Option (CookieAccount × Text) × Login S
  unfolding second_token
  rescue a l =
      if any (λ j. j == a.id) l.rotated_once
      then (none, l)
      else (let l' : Login S = record l { rotated_once = a.id ∷ l.rotated_once } in
          if browser_managed_cookie a
          then (none, l')
          else (let (alive, rows, s) = up.rotate a l.world.accounts l.world.outside in
              let w : World S = record l.world { accounts = rows; outside = s } in
              let (found, w') = second_token (account_by_id a.id rows) w in
              if alive then (found, record l' { world = w' }) else (none, record l' { world = w })))

  -- An account that could not be rescued is marked, and the next is picked among those not tried.
  give_up : CookieAccount → Text → Login S → Option CookieAccount × Login S
  give_up a err l =
      let now = up.clock l.world.outside in
      let rows = mark_cookie_by_status now a.id 401 err l.world.accounts in
      let (next, rows') =
        pick_cookie_account_except (up.pool_answers l.world.outside) (up.scans l.world.outside) now
          (λ i. any (λ j. j == i) l.tried) rows in
      (next, record l { world = record l.world { accounts = rows' }; last_error = some err })

  -- The beginning of a round: the account is tried, and its token asked for.
  start_round : CookieAccount → Login S → Result Text × Login S
  start_round a l =
      let (got, s) = up.get_xsrf a.cookie exit.url a.authuser l.world.outside in
      (
        got,
        record l {
          tried = add_id a.id l.tried;
          cookie_id = a.id;
          cookie_label = account_display_name a;
          world = record l.world { outside = s };
        },
      )

  -- What a round leaves: an account to go on with, or the end of the loop.
  after_rescue :
      CookieAccount
      → Text
      → Option (CookieAccount × Text) × Login S
      → Option CookieAccount × Login S
  unfolding signed_in give_up
  after_rescue a err (some (fresh, tok), l) = (none, signed_in fresh tok l)
  after_rescue a err (none, l) = give_up a err l

  after_token : CookieAccount → Result Text × Login S → Option CookieAccount × Login S
  unfolding signed_in rescue after_rescue
  after_token a (success tok, l) = (none, signed_in a tok l)
  after_token a (failure err, l) = after_rescue a err (rescue a l)

  round : CookieAccount → Login S → Option CookieAccount × Login S
  unfolding start_round after_token
  round a l = after_token a (start_round a l)

  -- `none` where the fuel does not suffice.
  login_loop : ℕ → Option CookieAccount → Login S → Option (Login S)
  unfolding round
  login_loop zero acct l = none
  login_loop (suc f) none l = some l
  login_loop (suc f) (some a) l =
      let rest = login_loop f (round a l).0 (round a l).1 in
      if leb max_cookie_tries (length l.tried) then some l else rest

  new_login : World S → Login S
  new_login w = record {
    world = w;
    tried = [];
    rotated_once = [];
    last_error = none;
    cookie_id = 0;
    cookie_label = [];
    session = no_session;
  }

  unfoldable pub login : Option CookieAccount → World S → Option (Login S)
  unfolding login_loop new_login
  login acct w = login_loop (max_cookie_tries + 1) acct (new_login w)
