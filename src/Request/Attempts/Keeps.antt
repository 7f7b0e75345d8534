-- ===== src/Request/Attempts/Keeps.antt =====
-- The loop of requests keeps the slots, and every row with its account.
use gemini_web2api_go_browse.Prelude.{
  ap, ◌∙◌, ℕ, zero, suc, ◌+◌, inl, inr, Bool, true, false, not, ◌&&◌, List, [], Option, none, some,
  ltb, leb, ◌==◌, is_empty, Bool-cases, Option-cases, Text, text_eq,
}
use gemini_web2api_go_browse.CookiePool.{update_account_cookie, mark_cookie_by_status}
use gemini_web2api_go_browse.CookiePool.Identity.{
  DistinctAccounts, identities, update_account_cookie_keeps,
}
use gemini_web2api_go_browse.CookiePool.Kept.{identities-DistinctAccounts, mark-identities}
use gemini_web2api_go_browse.CookiePool.Merge.{merge_set_cookie}
use gemini_web2api_go_browse.Models.{tool_video}
use gemini_web2api_go_browse.Xsrf.{Result, success, failure, is_xsrf_error}
use gemini_web2api_go_browse.Request.{Answer, net_error, http, Upstream, World, is_timeout_error}
use gemini_web2api_go_browse.Request.Kept.{Kept, Kept-rows}
use gemini_web2api_go_browse.Request.Attempts.{
  Job, Run, Next, same_again, next_attempt, stop, answered_with, Reader, send_request, take_cookies,
  note_exit, stop_or_next, on_error, on_status, http_error, renewed_token, on_refused, no_content,
  on_body, on_answer, attempt, finish, continue_with, attempts,
}

module _ {S : Type 0} (up : Upstream S) (rd : Reader) (job : Job) (w0 : World S)
    (distinct : DistinctAccounts w0.accounts) where
  take_cookies-Kept :
      (hs : List Text) (r : Run S) → Kept w0 r.world → Kept w0 (take_cookies up rd job hs r).world
  unfolding take_cookies
  take_cookies-Kept hs r k =
      let merged = merge_set_cookie r.cookie_str hs in
      elim (Bool-cases
        (not (is_empty hs) && ltb 0 job.cookie_id && not (text_eq merged r.cookie_str))) [
          | inr n ↦ rw n k
          | inl y ↦ rw y (
              Kept-rows w0 r.world
                (update_account_cookie (up.reads_row r.world.outside) job.cookie_id merged
                  r.world.accounts)
                k
                (ap
                    (λ b.
                      identities (update_account_cookie b job.cookie_id merged r.world.accounts))
                    (up.reads_row-true r.world.outside)
                  ∙ update_account_cookie_keeps job.cookie_id merged r.world.accounts (
                      identities-DistinctAccounts w0.accounts r.world.accounts k.accounts
                        distinct)))
        ]

  note_exit-Kept :
      (b : Bool) (e : Text) (r : Run S)
      → Kept w0 r.world
      → Kept w0 (note_exit up rd job b e r).world
  unfolding note_exit
  note_exit-Kept b e r k = elim (Bool-cases (ltb 0 job.exit.id)) [
    | inl y ↦ rw y (record { slots = k.slots; accounts = k.accounts })
    | inr n ↦ rw n k
  ]

  on_error-Kept :
      (e : Text) (r : Run S) → Kept w0 r.world → Kept w0 (on_error up rd job e r).1.world
  unfolding on_error stop_or_next
  on_error-Kept e r k = elim (Bool-cases (ltb 0 job.model.tool && is_timeout_error e)) [
    | inl y ↦ rw y k
    | inr n ↦ rw n (note_exit-Kept false e (record r { last_error = some e }) k)
  ]

  on_status-Kept :
      (status : ℕ) (raw : Text) (r : Run S)
      → Kept w0 r.world
      → Kept w0 (on_status up rd job status raw r).1.world
  unfolding on_status stop_or_next
  on_status-Kept status raw r k =
      let err = http_error up rd job status raw in
      note_exit-Kept false err (record r { last_error = some err; last_status = status }) k

  renewed_token-Kept :
      (status : ℕ) (raw : Text) (r : Run S) (got : Result Text) (s : S)
      → Kept w0 r.world
      → Kept w0 (renewed_token up rd job status raw r (got, s)).1.world
  unfolding renewed_token
  renewed_token-Kept status raw r (success tok) s k = record {
    slots = k.slots;
    accounts = k.accounts;
  }
  renewed_token-Kept status raw r (failure e) s k =
      on_status-Kept status raw (record r { world = record r.world { outside = s } })
        (record { slots = k.slots; accounts = k.accounts })

  on_refused-Kept :
      (status : ℕ) (raw : Text) (r : Run S)
      → Kept w0 r.world
      → Kept w0 (on_refused up rd job status raw r).1.world
  unfolding on_refused
  on_refused-Kept status raw r k =
      elim (Bool-cases
        (status == 400 && is_xsrf_error raw && not (is_empty r.cookie_str) && not r.xsrf_retried)) [
          | inr n ↦ rw n (on_status-Kept status raw r k)
          | inl y ↦
              let (got, s) =
                up.get_xsrf r.cookie_str job.exit.url job.authuser
                  (up.invalidate_xsrf r.cookie_str job.authuser r.world.outside) in
              rw y (renewed_token-Kept status raw (record r { xsrf_retried = true }) got s k)
        ]

  on_body-Kept :
      (raw : Text) (r : Run S) → Kept w0 r.world → Kept w0 (on_body up rd job raw r).1.world
  unfolding on_body stop_or_next
  on_body-Kept raw r k =
      let accepted = job.model.tool == tool_video && rd.has_conversation raw in
      elim (Bool-cases (not (rd.has_content_frame raw) && not accepted)) [
        | inl y ↦ rw y (
            note_exit-Kept false (no_content up rd job raw)
              (record r { last_error = some (no_content up rd job raw) }) k)
        | inr n ↦
            let r' = note_exit up rd job true [] r in
            rw n (
              Kept-rows w0 r'.world
                (mark_cookie_by_status (up.clock r'.world.outside) job.cookie_id 200 []
                  r'.world.accounts)
                (note_exit-Kept true [] r k)
                (mark-identities (up.clock r'.world.outside) job.cookie_id 200 []
                  r'.world.accounts))
      ]

  on_answer-Kept :
      (a : Answer) (r : Run S) → Kept w0 r.world → Kept w0 (on_answer up rd job a r).1.world
  unfolding on_answer
  on_answer-Kept (net_error e) r k = on_error-Kept e r k
  on_answer-Kept (http status raw) r k = elim (Bool-cases (status == 200)) [
    | inl y ↦ rw y (on_body-Kept raw r k)
    | inr n ↦ rw n (on_refused-Kept status raw r k)
  ]

  attempt-Kept : (r : Run S) → Kept w0 r.world → Kept w0 (attempt up rd job r).1.world
  unfolding attempt send_request
  attempt-Kept r k =
      let (reply, r') = send_request up rd job r in
      on_answer-Kept reply.answer (take_cookies up rd job reply.set_cookie r')
        (take_cookies-Kept reply.set_cookie r' (record { slots = k.slots; accounts = k.accounts }))

  finish-Kept : (r : Run S) → Kept w0 r.world → Kept w0 (finish up rd job r).1.world
  unfolding finish
  finish-Kept r k = elim (Option-cases r.last_error) [
    | inl e ↦ rw e k
    | inr (err, e) ↦ rw e (
        Kept-rows w0 r.world
          (mark_cookie_by_status (up.clock r.world.outside) job.cookie_id r.last_status err
            r.world.accounts)
          k
          (mark-identities (up.clock r.world.outside) job.cookie_id r.last_status err
            r.world.accounts))
  ]

  -- A run whatever its end.
  abbrev pub Good : Option (Option Text × Run S) → Type 0
  Good none = Unit {0}
  Good (some (out, r)) = Kept w0 r.world

  continue-Kept :
      (again next : Option (Option Text × Run S)) (n : Next) (r : Run S)
      → Good again
      → Good next
      → Kept w0 r.world
      → Good (continue_with up rd job again next (n, r))
  unfolding continue_with
  continue-Kept again next same_again r a b k = a
  continue-Kept again next next_attempt r a b k = b
  continue-Kept again next stop r a b k = finish-Kept r k
  continue-Kept again next (answered_with raw) r a b k = k

  pub attempts-Kept :
      (f made : ℕ) (r : Run S) → Kept w0 r.world → Good (attempts up rd job f made r)
  unfolding attempts
  attempts-Kept zero made r k = tt
  attempts-Kept (suc f) made r k =
      let (n, r') = attempt up rd job r in
      let k' = attempt-Kept r k in
      elim (Bool-cases (leb job.retry_budget made)) [
        | inl y ↦ rw y (finish-Kept r k)
        | inr z ↦ rw z (
            continue-Kept (attempts up rd job f made r') (attempts up rd job f (made + 1) r') n r'
              (attempts-Kept f made r' k') (attempts-Kept f (made + 1) r' k') k')
      ]
