-- ===== src/Request/Login/Rounds.antt =====
-- The loop over accounts: it ends, on three accounts at most, and keeps the slots and the accounts of the
-- rows.
use gemini_web2api_go_browse.Prelude.{
  ℕ, zero, suc, ◌+◌, ◌-◌, ◌≤◌, ◌<◌, ◌≡◌, refl, sym, ap, subst, ◌∙◌, inl, inr, Bool, false, not,
  ◌||◌, List, [], ◌∷◌, Option, none, some, arith, leb, ◌==◌, length, any, Bool-cases, Text,
}
use gemini_web2api_go_browse.ProxyPool.{Proxy, proxy_usable_by_id}
use gemini_web2api_go_browse.CookiePool.{
  CookieAccount, account_by_id, bind_account_proxy, browser_managed_cookie, mark_cookie_by_status,
  pick_cookie_account, pick_cookie_account_except,
}
use gemini_web2api_go_browse.CookiePool.Pick.{pick_first}
use gemini_web2api_go_browse.CookiePool.Identity.{DistinctAccounts}
use gemini_web2api_go_browse.CookiePool.Kept.{
  identities-DistinctAccounts, pick-identities, bind-identities, mark-identities,
}
use gemini_web2api_go_browse.Models.{ModelConfig}
use gemini_web2api_go_browse.Runtime.{RuntimeConfig}
use gemini_web2api_go_browse.Xsrf.{Result, success, failure}
use gemini_web2api_go_browse.Request.{Upstream, World, settings_of, anon_first_eligible}
use gemini_web2api_go_browse.Request.Kept.{Kept, Kept-rows}
use gemini_web2api_go_browse.Request.Login.{
  Login, add_id, pick_account, bind_exit, signed_in, second_token, rescue, give_up, start_round,
  after_rescue, after_token, round, login_loop, new_login, login, max_cookie_tries,
}

-- No account stands twice among those that were tried.
abbrev pub Once : List ℕ → Type 0
Once [] = Unit {0}
Once (i ∷ ids) = (any (λ j. j == i) ids ≡ false) × Once ids

-- The account to go on with is not one that was tried.
abbrev Fresh : Option CookieAccount → List ℕ → Type 0
Fresh none tried = Unit {0}
Fresh (some a) tried = any (λ j. j == a.id) tried ≡ false

pick-Fresh :
    (answers : Bool) (scans : CookieAccount → Bool) (now : ℕ) (tried : List ℕ)
    (rows : List CookieAccount)
    → Fresh
        (pick_cookie_account_except answers scans now (λ i. any (λ j. j == i) tried) rows).0
        tried
pick-Fresh answers scans now tried rows =
    elim (pick_first answers scans now (λ i. any (λ j. j == i) tried) rows) [
      | inl (a, working, (stands, on, read, free), first, picked, table) ↦
          subst (λ o. Fresh o tried) (sym picked) free
      | inr (all, picked, table) ↦ subst (λ o. Fresh o tried) (sym picked) tt
    ]

fresh_start : (o : Option CookieAccount) → Fresh o []
fresh_start none = tt
fresh_start (some a) = refl

module _ {S : Type 0} (up : Upstream S) (c : RuntimeConfig) (w0 : World S)
    (distinct : DistinctAccounts w0.accounts) where
  pub pick_account-Kept :
      (mc : ModelConfig) (has_attachment : Bool) (w : World S)
      → Kept w0 w
      → Kept w0 (pick_account up c mc has_attachment w).1
  unfolding pick_account pick_cookie_account
  pick_account-Kept mc has_attachment w k =
      elim (Bool-cases (anon_first_eligible c mc has_attachment)) [
        | inl y ↦ rw y k
        | inr n ↦ rw n (
            Kept-rows w0 w
              (pick_cookie_account (up.pool_answers w.outside) (up.scans w.outside)
                (up.clock w.outside) w.accounts).1
              k
              (pick-identities (up.pool_answers w.outside) (up.scans w.outside) (up.clock w.outside)
                (λ i. false) w.accounts))
      ]

  module _ (exit : Proxy) where
    bind_exit-Kept :
        (a : CookieAccount) (w : World S) → Kept w0 w → Kept w0 (bind_exit up c exit a w)
    unfolding bind_exit
    bind_exit-Kept a w k =
        elim (Bool-cases (
          a.proxy_id == 0
          || not (proxy_usable_by_id (settings_of c) (up.clock w.outside) a.proxy_id w.proxies))) [
            | inl y ↦ rw y (
                Kept-rows w0 w (bind_account_proxy a.id exit.id w.accounts) k
                  (bind-identities a.id exit.id w.accounts))
            | inr n ↦ rw n k
          ]

    -- What a part of a round leaves.
    abbrev Fits : List ℕ → Option CookieAccount × Login S → Type 0
    Fits tried (next, l) = (l.tried ≡ tried) × Kept w0 l.world × Fresh next tried

    signed_in-Fits :
        (a : CookieAccount) (tok : Text) (l : Login S)
        → Kept w0 l.world
        → Fits l.tried (none, signed_in up c exit a tok l)
    unfolding signed_in
    signed_in-Fits a tok l k = (refl, bind_exit-Kept a l.world k, tt)

    second_token-Kept :
        (o : Option CookieAccount) (w : World S)
        → Kept w0 w
        → Kept w0 (second_token up c exit o w).1
    unfolding second_token
    second_token-Kept none w k = k
    second_token-Kept (some fresh) w k = record { slots = k.slots; accounts = k.accounts }

    rescue-Kept :
        (a : CookieAccount) (l : Login S)
        → Kept w0 l.world
        → ((rescue up c exit a l).1.tried ≡ l.tried) × Kept w0 (rescue up c exit a l).1.world
    unfolding rescue
    rescue-Kept a l k = elim (Bool-cases (any (λ j. j == a.id) l.rotated_once)) [
      | inl y ↦ rw y (refl, k)
      | inr n ↦ elim (Bool-cases (browser_managed_cookie a)) [
        | inl y ↦ rw (n, y) (refl, k)
        | inr m ↦
            let (alive, rows, s) = up.rotate a l.world.accounts l.world.outside in
            let law =
              up.rotate-identities a l.world.accounts l.world.outside
                (identities-DistinctAccounts w0.accounts l.world.accounts k.accounts distinct) in
            let w : World S = record l.world { accounts = rows; outside = s } in
            let kw : Kept w0 w = record { slots = k.slots; accounts = law.0 ∙ k.accounts } in
            elim (Bool-cases alive) [
              | inl y ↦ rw (n, m) (rw y (refl, second_token-Kept (account_by_id a.id rows) w kw))
              | inr z ↦ rw (n, m) (rw z (refl, kw))
            ]
      ]
    ]

    give_up-Fits :
        (a : CookieAccount) (e : Text) (l : Login S)
        → Kept w0 l.world
        → Fits l.tried (give_up up c exit a e l)
    unfolding give_up
    give_up-Fits a e l k =
        let now = up.clock l.world.outside in
        let rows = mark_cookie_by_status now a.id 401 e l.world.accounts in
        let skip : ℕ → Bool = λ i. any (λ j. j == i) l.tried in
        (
          refl,
          Kept-rows w0 l.world
              (pick_cookie_account_except (up.pool_answers l.world.outside)
                (up.scans l.world.outside) now skip rows).1
              k
              (pick-identities (up.pool_answers l.world.outside) (up.scans l.world.outside) now skip
                  rows
                ∙ mark-identities now a.id 401 e l.world.accounts),
          pick-Fresh (up.pool_answers l.world.outside) (up.scans l.world.outside) now l.tried rows,
        )

    after_rescue-Fits :
        (a : CookieAccount) (e : Text) (o : Option (CookieAccount × Text)) (l : Login S)
        → Kept w0 l.world
        → Fits l.tried (after_rescue up c exit a e (o, l))
    unfolding after_rescue
    after_rescue-Fits a e none l k = give_up-Fits a e l k
    after_rescue-Fits a e (some (fresh, tok)) l k = signed_in-Fits fresh tok l k

    after_token-Fits :
        (a : CookieAccount) (got : Result Text) (l : Login S)
        → Kept w0 l.world
        → Fits l.tried (after_token up c exit a (got, l))
    unfolding after_token
    after_token-Fits a (success tok) l k = signed_in-Fits a tok l k
    after_token-Fits a (failure e) l k =
        let (found, l') = rescue up c exit a l in
        let (same, k') = rescue-Kept a l k in
        subst (λ t. Fits t (after_rescue up c exit a e (found, l'))) same
          (after_rescue-Fits a e found l' k')

    round-Fits :
        (a : CookieAccount) (l : Login S)
        → Kept w0 l.world
        → Fits (add_id a.id l.tried) (round up c exit a l)
    unfolding round start_round
    round-Fits a l k =
        let (got, l') = start_round up c exit a l in
        after_token-Fits a got l' (record { slots = k.slots; accounts = k.accounts })

    -- The loop came to an end on few accounts.
    abbrev Ended : Option (Login S) → Type 0
    Ended o = (l : Login S) × (o ≡ some l) × (length l.tried ≤ 3) × Once l.tried × Kept w0 l.world

    login_loop-Ended :
        (f : ℕ) (acct : Option CookieAccount) (l : Login S)
        → 3 - length l.tried < f
        → length l.tried ≤ 3
        → Once l.tried
        → Fresh acct l.tried
        → Kept w0 l.world
        → Ended (login_loop up c exit f acct l)
    unfolding login_loop add_id
    login_loop-Ended zero acct l fuel few once fresh k = absurd (omega (arith, fuel))
    login_loop-Ended (suc f) none l fuel few once fresh k = (l, refl, few, once, k)
    login_loop-Ended (suc f) (some a) l fuel few once fresh k =
        elim (Bool-cases (leb max_cookie_tries (length l.tried))) [
          | inl y ↦ rw y (l, refl, few, once, k)
          | inr n ↦
              let (next, l') = round up c exit a l in
              let (tried, k', fresh') = round-Fits a l k in
              let cons : add_id a.id l.tried ≡ a.id ∷ l.tried = rw fresh refl in
              let is : l'.tried ≡ a.id ∷ l.tried = tried ∙ cons in
              let long : length l'.tried ≡ suc (length l.tried) = ap length is in
              let room : length l.tried < 3 = ground arith in
              rw n (
                login_loop-Ended f next l' (omega (arith, long, room)) (omega (arith, long, room))
                  (subst Once (sym is) (fresh, once)) (subst (Fresh next) (sym tried) fresh') k')
        ]

    -- For every upstream, whatever it answers, and every account to start with, on rows with distinct
    -- ids: the loop comes to an end on the fuel that it is given, tries three accounts at most and none
    -- twice, and leaves the slots as they are and every row with the account that its cookie was of.
    pub login-total :
        (acct : Option CookieAccount) (w : World S)
        → Kept w0 w
        → (l : Login S) × (login up c exit acct w ≡ some l)
          × (length l.tried ≤ 3)
          × Once l.tried
          × Kept w0 l.world
    unfolding login new_login
    login-total acct w k =
        login_loop-Ended (max_cookie_tries + 1) acct (new_login up c exit w) (omega arith)
          (omega arith) tt (fresh_start acct) k
