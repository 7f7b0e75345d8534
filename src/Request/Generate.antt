-- ===== src/Request/Generate.antt =====
-- streamGenerateWithFiles as a whole: an account, an exit whose slot is held for the request, a token,
-- the attachments, and the loop of requests.
pub mod Returns
use gemini_web2api_go_browse.Prelude.{
  ℕ, ◌+◌, Bool, true, false, not, ◌&&◌, List, [], ◌∷◌, ◌++◌, Option, none, some, amount, ltb, ◌==◌,
  if◌then◌else◌, length, is_empty, Text,
}
use gemini_web2api_go_browse.RateLimit.{slot_release}
use gemini_web2api_go_browse.ProxyPool.{Proxy, RateLimitError, Acquired, ok, err, acquire_slot}
use gemini_web2api_go_browse.CookiePool.{CookieAccount}
use gemini_web2api_go_browse.Models.{ModelConfig}
use gemini_web2api_go_browse.Runtime.{RuntimeConfig}
use gemini_web2api_go_browse.Xsrf.{Result, success, failure}
use gemini_web2api_go_browse.Request.{
  PendingUpload, FileRef, Upstream, World, settings_of, temporary_chat_eligible,
}
use gemini_web2api_go_browse.Request.Login.{Login, Session, no_session, pick_account, login}
use gemini_web2api_go_browse.Request.Files.{Prepared, prepare_context_file, upload_all}
use gemini_web2api_go_browse.Request.Attempts.{Job, Run, Reader, attempts, retry_budget_of}

-- What streamGenerateWithFiles returns: the body of an answer with what was streamed of it, or an error. The
-- error of a request is `none` where no attempt was allowed.
pub data Generated : Type 0 where
  generated : Text → Text → Text → Generated
  rate_limited : RateLimitError → Generated
  accounts_failed : ℕ → Text → Generated
  image_needs_account : Generated
  upload_failed : Text → Generated
  context_failed : Text → Generated
  prompt_too_long : ℕ → ℕ → Bool → Generated
  request_failed : Option Text → Generated
  out_of_fuel : Generated

pub record Ask : Type 0 where
  pub prompt : Text
  pub latest : Text
  pub model : ModelConfig
  pub pending : List PendingUpload
  pub wants_text : Bool
  pub wants_reasoning : Bool

prefer_of : Option CookieAccount → ℕ
prefer_of none = 0
prefer_of (some a) = a.proxy_id

new_run : {S : Type 0} → Session → World S → Run S
new_run session w = record {
  world = w;
  cookie_str = session.cookie_str;
  header_cookie = session.cookie_str;
  at_token = session.xsrf_token;
  last_error = none;
  last_status = 0;
  xsrf_retried = false;
  emitted = [];
  emitted_reasoning = [];
  sent = [];
}

came_to : {S : Type 0} → World S → Option (Option Text × Run S) → Generated × World S
came_to w none = (out_of_fuel, w)
came_to w (some (none, r)) = (request_failed r.last_error, r.world)
came_to w (some (some raw, r)) = (generated raw r.emitted r.emitted_reasoning, r.world)

-- Without an account there is no account slot either.
session_of : Session → Session
session_of s = if is_empty s.cookie_str then record s { auth_user = 0 } else s

module _ {S : Type 0} (up : Upstream S) (rd : Reader) (c : RuntimeConfig) (q : Ask) where
  module _ (exit : Proxy) where
    job_of : Login S → Session → List FileRef → Text → Job
    job_of l session files prompt = record {
      exit = exit;
      cookie_id = l.cookie_id;
      sapisid = session.sapisid;
      authuser = session.auth_user;
      prompt = prompt;
      files = files;
      model = q.model;
      temporary = temporary_chat_eligible c && not (is_empty session.cookie_str);
      wants_text = q.wants_text;
      wants_reasoning = q.wants_reasoning;
      retry_budget = retry_budget_of (amount c.retry_attempts) q.model.tool;
    }

    -- The loop starts with nothing sent, and its fuel is one more than the requests that it can make.
    run_job : Login S → Session → List FileRef → Text → World S → Generated × World S
    unfolding job_of new_run came_to
    run_job l session files prompt w =
        let job = job_of l session files prompt in
        came_to w (attempts up rd job (job.retry_budget + 2) 0 (new_run session w))

    within_budget : Login S → Session → List FileRef → Text → World S → Generated × World S
    unfolding run_job
    within_budget l session files prompt w =
        let budget = amount c.max_prompt_bytes in
        if ltb 0 budget && ltb budget (length prompt)
        then (prompt_too_long (length prompt) budget (not (is_empty session.cookie_str)), w)
        else run_job l session files prompt w

    with_context :
        Login S → Session → List FileRef → World S → Result Prepared × S → Generated × World S
    unfolding within_budget
    with_context l session files w (failure e, s) = (context_failed e, record w { outside = s })
    with_context l session files w (success p, s) =
        within_budget l session (files ++ p.added) p.prompt (record w { outside = s })

    with_uploads : Login S → Session → World S → Result (List FileRef) × S → Generated × World S
    unfolding with_context
    with_uploads l session w (failure e, s) = (upload_failed e, record w { outside = s })
    with_uploads l session w (success files, s) =
        with_context l session files (record w { outside = s })
          (prepare_context_file up session.cookie_str exit.url session.auth_user q.prompt q.latest
            (amount c.max_prompt_bytes) s)

    with_session : Login S → Session → Generated × World S
    unfolding with_uploads
    with_session l session =
        let w = l.world in
        if not (is_empty q.pending) && is_empty session.cookie_str
        then (image_needs_account, w)
        else with_uploads l session w
            (upload_all up session.cookie_str exit.url session.auth_user q.pending w.outside)

    degraded : Login S → Text → Generated × World S
    unfolding with_session session_of
    degraded l e =
        if c.fallback_anon
        then with_session (record l { cookie_id = 0; cookie_label = [] }) (session_of l.session)
        else (accounts_failed (length l.tried) e, l.world)

    by_error : Login S → Option Text → Generated × World S
    unfolding degraded with_session session_of
    by_error l none = with_session l (session_of l.session)
    by_error l (some e) =
        if is_empty l.session.cookie_str
        then degraded l e
        else with_session l (session_of l.session)

    after_login : Login S → Generated × World S
    unfolding by_error
    after_login l = by_error l l.last_error

    logged_in : World S → Option (Login S) → Generated × World S
    logged_in w none = (out_of_fuel, w)
    logged_in w (some l) = after_login l

    through_exit : Option CookieAccount → World S → Generated × World S
    unfolding logged_in
    through_exit acct w = logged_in w (login up c exit acct w)

  -- The slot of the exit is released whatever the request came to.
  released : Option CookieAccount → World S → Acquired → Generated × World S
  unfolding through_exit
  released acct w (err e) = (rate_limited e, w)
  released acct w (ok p) =
      let (out, w') = through_exit p acct w in
      (out, record w' { slots = slot_release p.id w'.slots })

  pub stream_generate : World S → Generated × World S
  unfolding prefer_of released
  stream_generate w0 =
      let (acct, w) = pick_account up c q.model (not (is_empty q.pending)) w0 in
      let (got, slots, pool) =
        acquire_slot (settings_of c) (up.clock w.outside) (prefer_of acct) w.proxies w.slots in
      released acct (record w { slots = slots; proxies = pool }) got
