-- ===== src/Request/Examples.antt =====
-- Concrete requests: one account whose token can be had, and an upstream that refuses the token once,
-- gives no content once, and then answers.
use gemini_web2api_go_browse.Prelude.{
  ℕ, pos, ◌+◌, ◌≤◌, ◌≡◌, ◌≢◌, inr, arith, refl, true, false, [], ◌∷◌, Option, none, some, ltb,
  if◌then◌else◌, length, is_empty, Text, codes,
}
use gemini_web2api_go_browse.RateLimit.{get_slot}
use gemini_web2api_go_browse.ProxyPool.{no_proxy}
use gemini_web2api_go_browse.CookiePool.{CookieAccount, enabled}
use gemini_web2api_go_browse.CookiePool.Identity.{DistinctAccounts, identities}
use gemini_web2api_go_browse.Models.{hex_flash36}
use gemini_web2api_go_browse.Runtime.{RuntimeConfig}
use gemini_web2api_go_browse.Xsrf.{success}
use gemini_web2api_go_browse.Rotate.{failed}
use gemini_web2api_go_browse.Request.{http, Reply, World}
use gemini_web2api_go_browse.Request.Kept.{Kept, Kept-refl}
use gemini_web2api_go_browse.Request.Wired.{Network, Outside, wired}
use gemini_web2api_go_browse.Request.Login.{Login, login}
use gemini_web2api_go_browse.Request.Login.Rounds.{Once, login-total}
use gemini_web2api_go_browse.Request.Attempts.{Job, Run, Reader, attempts}
use gemini_web2api_go_browse.Request.Attempts.Budget.{late, extra, attempts-total}
use gemini_web2api_go_browse.Request.Attempts.Recovers.{Recovers, attempts-Recovers}
use gemini_web2api_go_browse.Request.Generate.{Ask, out_of_fuel, stream_generate}
use gemini_web2api_go_browse.Request.Generate.Returns.{stream_generate-returns}

abbrev account : CookieAccount
account = record {
  id = 1;
  label = codes "a";
  cookie = codes "SAPISID=x; __Secure-1PSID=y";
  status = enabled;
  note = [];
  created_at = 1;
  last_used_at = 5;
  last_ok_at = 0;
  last_error = [];
  fail_count = 0;
  proxy_id = 0;
  source = codes "manual";
  profile = [];
  authuser = 0;
}

abbrev config : RuntimeConfig
config = record {
  retry_attempts = pos 3;
  retry_delay_sec = pos 2;
  request_timeout = pos 180;
  default_model = codes "gemini-3.6-flash";
  per_ip_concurrent = pos 4;
  per_ip_rpm = pos 30;
  per_ip_rph = pos 500;
  retention_days = pos 30;
  log_requests = true;
  impersonate = codes "chrome";
  gemini_bl = codes "boq";
  proxy_cooldown_min = pos 120;
  fallback_direct = false;
  fallback_anon = false;
  gemini_bl_auto = true;
  max_prompt_bytes = pos 130000;
  multi_turn = false;
  auto_delete_conversation = false;
  anon_first = false;
  temporary_chat = false;
  browser_refresh_minutes = pos 10;
  media_use_auto_bl = true;
}

abbrev reply_at : ℕ → Reply
reply_at t =
    if ltb t 102
    then record { lines = []; set_cookie = []; answer = http 400 (codes "[[\"xsrf\"]]") }
    else if ltb t 104
    then record { lines = []; set_cookie = []; answer = http 200 [] }
    else record {
      lines = codes "hello" ∷ [];
      set_cookie = codes "SIDCC=new" ∷ [];
      answer = http 200 (codes "hello");
    }

abbrev network : Network
network = record {
  pool_answers = λ t. true;
  scans = λ t a. true;
  sum = λ c. codes "0123456789abcdef";
  find_token = λ body. some body;
  find_push = λ body. none;
  find_pctx = λ body. none;
  init_params = λ body. none;
  proxy_url_of = λ i. [];
  app_page = λ t cookie url u. success (codes "token");
  rotate_post = λ t cookie body url. failed (codes "EOF");
  rotate_page = λ t cookie url. failed (codes "EOF");
  upload = λ t cookie url u bytes name. success (codes "/contrib/1");
  generate = λ t q. reply_at t;
}

abbrev reader : Reader
reader = record {
  texts_in_line = λ line. line ∷ [];
  reasoning_in_line = λ line. [];
  has_content_frame = λ raw. if is_empty raw then false else true;
  has_conversation = λ raw. false;
}

abbrev world : World Outside
world = record {
  accounts = account ∷ [];
  proxies = record { table = []; cache = []; cursor = 0 };
  slots = [];
  outside = record { now = 100; cache = []; asked = [] };
}

abbrev question : Ask
question = record {
  prompt = codes "hi";
  latest = codes "hi";
  model = record { hex_id = hex_flash36; mode = 1; thinking = false; tool = 0 };
  pending = [];
  wants_text = true;
  wants_reasoning = false;
}

world-Distinct : DistinctAccounts world.accounts
world-Distinct = (tt, tt)

stream_generate-returns_example :
    let (out, w') = stream_generate (wired network) reader config question world in
    (out ≢ out_of_fuel)
    × ((j : ℕ) → (get_slot j w'.slots).inflight ≡ (get_slot j world.slots).inflight)
    × (identities w'.accounts ≡ identities world.accounts)
stream_generate-returns_example =
    stream_generate-returns (wired network) reader config question world world-Distinct

login-total_example :
    (l : Login Outside) × (login (wired network) config no_proxy (some account) world ≡ some l)
    × (length l.tried ≤ 3)
    × Once l.tried
    × Kept world l.world
login-total_example =
    login-total (wired network) config world world-Distinct no_proxy (some account) world
      (Kept-refl world)

abbrev job : Job
job = record {
  exit = no_proxy;
  cookie_id = 1;
  sapisid = codes "x";
  authuser = 0;
  prompt = codes "hi";
  files = [];
  model = question.model;
  temporary = false;
  wants_text = true;
  wants_reasoning = false;
  retry_budget = 3;
}

abbrev new_run : Run Outside
new_run = record {
  world = world;
  cookie_str = account.cookie;
  header_cookie = account.cookie;
  at_token = codes "token";
  last_error = none;
  last_status = 0;
  xsrf_retried = false;
  emitted = [];
  emitted_reasoning = [];
  sent = [];
}

attempts-total_example :
    (out : Option Text) × (r' : Run Outside) × (attempts (wired network) reader job 5 0 new_run
      ≡ some (out, r'))
    × (length r'.sent ≤ 3 + extra r'.xsrf_retried)
    × (length (late r'.sent) ≤ extra r'.xsrf_retried)
attempts-total_example = attempts-total (wired network) reader job new_run refl refl refl

abbrev flaky_at : ℕ → Reply
flaky_at t =
    if ltb t 101
    then record { lines = []; set_cookie = []; answer = http 503 (codes "busy") }
    else record { lines = codes "hello" ∷ []; set_cookie = []; answer = http 200 (codes "hello") }

abbrev flaky_network : Network
flaky_network = record network { generate = λ t q. flaky_at t }

after_one_failure : Recovers (wired flaky_network) reader job 1 (codes "hello") world.outside
unfolding wired
after_one_failure = λ q. (refl, inr (refl, refl), λ q'. refl)

attempts-Recovers_example :
    (r' : Run Outside) × (attempts (wired flaky_network) reader job 5 0 new_run
      ≡ some (some (codes "hello"), r'))
attempts-Recovers_example =
    attempts-Recovers (wired flaky_network) reader job 5 0 1 (codes "hello") new_run (omega arith)
      (omega arith) refl refl after_one_failure
