-- ===== src/Request/Attempts.antt =====
-- The loop of requests of streamGenerateWithFiles: what is sent, what an answer changes, and when the
-- next request follows.
pub mod Budget
pub mod Keeps
pub mod Recovers
use gemini_web2api_go_browse.Prelude.{
  ℕ, zero, suc, ◌+◌, Bool, true, false, not, ◌&&◌, ◌||◌, List, [], ◌∷◌, ◌++◌, Option, none, some,
  ltb, leb, ◌==◌, if◌then◌else◌, length, is_empty, Text, codes, text_eq,
}
use gemini_web2api_go_browse.ProxyPool.{Proxy, record_proxy_result}
use gemini_web2api_go_browse.CookiePool.{mark_cookie_by_status, truncate, update_account_cookie}
use gemini_web2api_go_browse.CookiePool.Merge.{merge_set_cookie}
use gemini_web2api_go_browse.AuthUser.{itoa}
use gemini_web2api_go_browse.Models.{ModelConfig, tool_video}
use gemini_web2api_go_browse.Stream.Delta.{delta_push}
use gemini_web2api_go_browse.Xsrf.{Result, success, failure, is_xsrf_error}
use gemini_web2api_go_browse.Request.{
  FileRef, Sent, Answer, net_error, http, Reply, Upstream, World, is_timeout_error,
}

-- What stays the same over the loop: the exit, the account that is shown, and what is asked.
pub record Job : Type 0 where
  pub exit : Proxy
  pub cookie_id : ℕ
  pub sapisid : Text
  pub authuser : ℕ
  pub prompt : Text
  pub files : List FileRef
  pub model : ModelConfig
  pub temporary : Bool
  pub wants_text : Bool
  pub wants_reasoning : Bool
  pub retry_budget : ℕ

-- mediaTimeoutSec
abbrev pub media_timeout_sec : ℕ
media_timeout_sec = 540

-- The variables of the loop. `header_cookie` and `at_token` are what the headers and the body were built
-- of; `sent` is the requests that were sent, the last first, each with whether a text or a reasoning
-- had been given to the client before.
pub record Run (S : Type 0) : Type 0 where
  pub world : World S
  pub cookie_str : Text
  pub header_cookie : Text
  pub at_token : Text
  pub last_error : Option Text
  pub last_status : ℕ
  pub xsrf_retried : Bool
  pub emitted : Text
  pub emitted_reasoning : Text
  pub sent : List (Sent × Bool)

-- How an attempt ends: the same attempt again, the next one, the end of the loop, or the body of an answer.
pub data Next : Type 0 where
  same_again : Next
  next_attempt : Next
  stop : Next
  answered_with : Text → Next

-- retryBudget
unfoldable pub retry_budget_of : ℕ → ℕ → ℕ
retry_budget_of retry_attempts tool =
    if ltb 0 tool && ltb 2 retry_attempts then 2 else retry_attempts

-- Whether the client was given anything.
abbrev pub has_emitted : {S : Type 0} → Run S → Bool
has_emitted r = not (is_empty r.emitted) || not (is_empty r.emitted_reasoning)

-- `texts_in_line` and `reasoning_in_line` read the texts of a line, as cleanGeminiText leaves them, over
-- encoding/json; `has_content_frame` and `has_conversation` are hasContentFrame and whether
-- extractConversationID finds an id.
pub record Reader : Type 0 where
  pub texts_in_line : Text → List Text
  pub reasoning_in_line : Text → Text
  pub has_content_frame : Text → Bool
  pub has_conversation : Text → Bool

module _ (rd : Reader) where
  push_texts : Text → List Text → Text
  push_texts emitted [] = emitted
  push_texts emitted (t ∷ ts) = push_texts (delta_push emitted t).0 ts

  -- lineCB over the lines of a reply.
  push_lines : Bool → Bool → List Text → Text × Text → Text × Text
  unfolding push_texts
  push_lines text reasoning [] out = out
  push_lines text reasoning (line ∷ lines) (e, r) = push_lines text reasoning lines (
    (if text then push_texts e (rd.texts_in_line line) else e),
    (if reasoning then (delta_push r (rd.reasoning_in_line line)).0 else r),
  )

module _ {S : Type 0} (up : Upstream S) (rd : Reader) (job : Job) where
  request_of : Run S → Sent
  request_of r = record {
    prompt = job.prompt;
    files = job.files;
    model = job.model;
    temporary = job.temporary;
    cookie = r.header_cookie;
    sapisid = job.sapisid;
    at_token = r.at_token;
    authuser = job.authuser;
    proxy_url = job.exit.url;
    timeout = if ltb 0 job.model.tool then media_timeout_sec else 0;
  }

  -- The request is sent, and its lines are given to the client as they come.
  send_request : Run S → Reply × Run S
  unfolding request_of push_lines
  send_request r =
      let q = request_of r in
      let (reply, s) = up.do_request q r.world.outside in
      let (e, t) =
        push_lines rd job.wants_text job.wants_reasoning reply.lines
          (r.emitted, r.emitted_reasoning) in
      (
        reply,
        record r {
          world = record r.world { outside = s };
          emitted = e;
          emitted_reasoning = t;
          sent = (q, has_emitted r) ∷ r.sent;
        },
      )

  -- The cookies of the reply are merged and written to the account. `reads_row` says whether the
  -- database answers the read of its row.
  take_cookies : List Text → Run S → Run S
  take_cookies set_cookie r =
      let merged = merge_set_cookie r.cookie_str set_cookie in
      if not (is_empty set_cookie) && ltb 0 job.cookie_id && not (text_eq merged r.cookie_str)
      then record r {
        cookie_str = merged;
        world = record r.world {
          accounts =
              update_account_cookie (up.reads_row r.world.outside) job.cookie_id merged
                r.world.accounts;
        };
      }
      else r

  -- recordProxyResult, for an exit of the pool; its statement is taken by the database.
  note_exit : Bool → Text → Run S → Run S
  note_exit success_of err r =
      if ltb 0 job.exit.id
      then record r {
        world = record r.world {
          proxies =
              record_proxy_result true (up.clock r.world.outside) job.exit.id success_of err
                r.world.proxies;
        };
      }
      else r

  stop_or_next : Run S → Next × Run S
  stop_or_next r = ((if has_emitted r then stop else next_attempt), r)

  on_error : Text → Run S → Next × Run S
  unfolding stop_or_next note_exit
  on_error err r0 =
      let r : Run S = record r0 { last_error = some err } in
      if ltb 0 job.model.tool && is_timeout_error err
      then (stop, r)
      else stop_or_next (note_exit false err r)

  http_error : ℕ → Text → Text
  http_error status raw =
      codes "upstream HTTP " ++ (itoa status ++ (codes ": " ++ truncate raw 200))

  on_status : ℕ → Text → Run S → Next × Run S
  unfolding stop_or_next note_exit http_error
  on_status status raw r =
      let err = http_error status raw in
      stop_or_next (note_exit false err (record r { last_error = some err; last_status = status }))

  -- A token that the upstream refuses is dropped and asked for once more.
  renewed_token : ℕ → Text → Run S → Result Text × S → Next × Run S
  unfolding on_status
  renewed_token status raw r (success tok, s) = (
    same_again,
    record r {
      world = record r.world { outside = s };
      at_token = tok;
      header_cookie = r.cookie_str;
    },
  )
  renewed_token status raw r (failure e, s) =
      on_status status raw (record r { world = record r.world { outside = s } })

  on_refused : ℕ → Text → Run S → Next × Run S
  unfolding renewed_token on_status
  on_refused status raw r =
      if status == 400 && is_xsrf_error raw && not (is_empty r.cookie_str) && not r.xsrf_retried
      then renewed_token status raw (record r { xsrf_retried = true })
          (up.get_xsrf r.cookie_str job.exit.url job.authuser
            (up.invalidate_xsrf r.cookie_str job.authuser r.world.outside))
      else on_status status raw r

  abbrev no_content : Text → Text
  no_content raw =
      codes "upstream returned no content frame (raw " ++ (itoa (length raw) ++ codes " bytes)")

  on_body : Text → Run S → Next × Run S
  unfolding stop_or_next note_exit
  on_body raw r =
      let video_accepted = job.model.tool == tool_video && rd.has_conversation raw in
      if not (rd.has_content_frame raw) && not video_accepted
      then stop_or_next
          (note_exit false (no_content raw) (record r { last_error = some (no_content raw) }))
      else (let r' : Run S = note_exit true [] r in
          (
            answered_with raw,
            record r' {
              world = record r'.world {
                accounts =
                    mark_cookie_by_status (up.clock r'.world.outside) job.cookie_id 200 []
                      r'.world.accounts;
              };
            },
          ))

  on_answer : Answer → Run S → Next × Run S
  unfolding on_error on_refused on_body
  on_answer (net_error err) r = on_error err r
  on_answer (http status raw) r = if status == 200 then on_body raw r else on_refused status raw r

  attempt : Run S → Next × Run S
  unfolding send_request take_cookies on_answer
  attempt r =
      let (reply, r') = send_request r in on_answer reply.answer (take_cookies reply.set_cookie r')

  -- The end of the loop: the failure is written to the account.
  finish : Run S → Option Text × Run S
  finish r = elim r.last_error [
    | none ↦ (none, r)
    | some err ↦ (
      none,
      record r {
        world = record r.world {
          accounts =
              mark_cookie_by_status (up.clock r.world.outside) job.cookie_id r.last_status err
                r.world.accounts;
        };
      },
    )
  ]

  continue_with :
      Option (Option Text × Run S)
      → Option (Option Text × Run S)
      → Next × Run S
      → Option (Option Text × Run S)
  continue_with again next (same_again, r) = again
  continue_with again next (next_attempt, r) = next
  continue_with again next (stop, r) = some (finish r)
  continue_with again next (answered_with raw, r) = some (some raw, r)

  -- `made` is the attempts that were made; `none` where the fuel does not suffice, and the inner
  -- option is the body of the answer.
  pub attempts : ℕ → ℕ → Run S → Option (Option Text × Run S)
  unfolding attempt finish continue_with
  attempts zero made r = none
  attempts (suc f) made r =
      let again = attempts f made (attempt r).1 in
      let next = attempts f (made + 1) (attempt r).1 in
      if leb job.retry_budget made then some (finish r) else continue_with again next (attempt r)
