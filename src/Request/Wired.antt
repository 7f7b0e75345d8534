-- ===== src/Request/Wired.antt =====
-- The outside of a request, put together from the token cache and the rotation over the network. The
-- network is what each request would be answered at each time; every call takes a second. The database answers the read of a row before its cookie is written.
use gemini_web2api_go_browse.Prelude.{refl, ℕ, ◌+◌, Bool, true, false, List, [], ◌∷◌, Option, Text}
use gemini_web2api_go_browse.CookiePool.{CookieAccount}
use gemini_web2api_go_browse.Rotate.{
  Answered, Asked, Rotation, Alive, alive, not_alive, rotate_account,
}
use gemini_web2api_go_browse.Rotate.Managed.{rotate_account-identities}
use gemini_web2api_go_browse.Xsrf.{Result, XsrfCache, get_xsrf, invalidate_xsrf}
use gemini_web2api_go_browse.Request.{Sent, Reply, Upstream}

pub record Outside : Type 0 where
  pub now : ℕ
  pub cache : XsrfCache
  pub asked : Asked

pub record Network : Type 0 where
  pub sum : Text → Text
  pub find_token : Text → Option Text
  pub find_push : Text → Option Text
  pub find_pctx : Text → Option Text
  pub pool_answers : ℕ → Bool
  pub scans : ℕ → CookieAccount → Bool
  pub init_params : Text → Option (Text × Option ℕ)
  pub proxy_url_of : ℕ → Text
  pub app_page : ℕ → Text → Text → ℕ → Result Text
  pub rotate_post : ℕ → Text → Text → Text → Answered
  pub rotate_page : ℕ → Text → Text → Answered
  pub upload : ℕ → Text → Text → ℕ → Text → Text → Result Text
  pub generate : ℕ → Sent → Reply

is_alive : Alive → Bool
is_alive (alive interval names) = true
is_alive (not_alive e) = false

tick : Outside → Outside
tick s = record s { now = s.now + 1 }

drop_tokens : (Text → Text) → List Text → XsrfCache → XsrfCache
drop_tokens sum [] m = m
drop_tokens sum (c ∷ cs) m = drop_tokens sum cs (invalidate_xsrf sum c 0 m)

module _ (n : Network) where
  rotate_wired : CookieAccount → List CookieAccount → Outside → Bool × List CookieAccount × Outside
  unfolding is_alive tick drop_tokens
  rotate_wired a rows s =
      let r : Rotation = record {
        table = rows;
        asked = s.asked;
        dropped = [];
        reads = λ i. true;
        took = 0;
        others = λ m. m;
      } in
      let (out, r') =
        rotate_account (n.rotate_post s.now) (n.rotate_page s.now) n.init_params s.now
          (n.proxy_url_of a.proxy_id) a r in
      (
        is_alive out,
        r'.table,
        tick (record s { asked = r'.asked; cache = drop_tokens n.sum r'.dropped s.cache }),
      )

  unfoldable pub wired : Upstream Outside
  unfolding rotate_wired tick
  wired = record {
    clock = λ s. s.now;
    pool_answers = λ s. n.pool_answers s.now;
    scans = λ s. n.scans s.now;
    get_xsrf = λ cookie url u s.
        let (got, m) =
          get_xsrf n.sum n.find_token n.find_push n.find_pctx (n.app_page s.now) s.now cookie url u
            s.cache in
        (got, tick (record s { cache = m }));
    invalidate_xsrf = λ cookie u s. record s { cache = invalidate_xsrf n.sum cookie u s.cache };
    rotate = rotate_wired;
    upload_bytes = λ cookie url u bytes name s. (n.upload s.now cookie url u bytes name, tick s);
    do_request = λ q s. (n.generate s.now q, tick s);
    reads_row = λ s. true;
    reads_row-true = λ s. refl;
    rotate-identities = λ a rows s d.
        rotate_account-identities (n.rotate_post s.now) (n.rotate_page s.now) n.init_params s.now
          (n.proxy_url_of a.proxy_id) a
          (record {
            table = rows;
            asked = s.asked;
            dropped = [];
            reads = λ i. true;
            took = 0;
            others = λ m. m;
          })
          d refl;
  }
