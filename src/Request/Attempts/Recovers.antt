-- ===== src/Request/Attempts/Recovers.antt =====
-- The loop of requests outlasts failures: after some that pass, an answer is returned.
use gemini_web2api_go_browse.Prelude.{
  ℕ, zero, suc, ◌+◌, ◌<◌, ◌≡◌, refl, sym, ap, subst, ◌∙◌, ◌⊎◌, inl, inr, Bool, true, false, not,
  ◌&&◌, ◌||◌, List, [], some, arith, ltb, leb, ◌==◌, if◌then◌else◌, is_empty, Bool-cases, Text,
  text_eq,
}
use gemini_web2api_go_browse.CookiePool.Merge.{merge_set_cookie}
use gemini_web2api_go_browse.Models.{tool_video}
use gemini_web2api_go_browse.Request.{Sent, Answer, net_error, http, Upstream, is_timeout_error}
use gemini_web2api_go_browse.Request.Attempts.{
  Job, Run, Next, next_attempt, stop, answered_with, Reader, has_emitted, send_request, request_of,
  push_lines, take_cookies, note_exit, stop_or_next, on_error, on_status, http_error, on_refused,
  no_content, on_body, on_answer, attempt, continue_with, attempts,
}

module _ {S : Type 0} (up : Upstream S) (rd : Reader) (job : Job) where
  -- A failure that may pass: an error of the network that is no timeout of a media request, a body
  -- without content that is no accepted video, or a status but 200 and 400.
  abbrev pub MayPass : Answer → Type 0
  MayPass (net_error e) = (ltb 0 job.model.tool && is_timeout_error e) ≡ false
  MayPass (http status raw) =
      ((status ≡ 200)
        × (rd.has_content_frame raw ≡ false)
        × ((job.model.tool == tool_video && rd.has_conversation raw) ≡ false))
      ⊎ (((status == 200) ≡ false) × ((status == 400) ≡ false))

  -- From a state of the outside: whatever is sent, `k` requests fail in such a way and with no line, and
  -- the next is answered with the body.
  abbrev pub Recovers : ℕ → Text → S → Type 0
  Recovers zero raw s = (q : Sent) → (up.do_request q s).0.answer ≡ http 200 raw
  Recovers (suc k) raw s =
      (q : Sent)
      → let (reply, s') = up.do_request q s in
        (reply.lines ≡ []) × MayPass reply.answer × Recovers k raw s'

  -- A run of which nothing was given to the client, at a state of the outside.
  abbrev At : S → Run S → Type 0
  At s r = (r.world.outside ≡ s) × (has_emitted r ≡ false)

  take_cookies-At :
      (s : S) (hs : List Text) (r : Run S) → At s r → At s (take_cookies up rd job hs r)
  unfolding take_cookies
  take_cookies-At s hs r h =
      let merged = merge_set_cookie r.cookie_str hs in
      elim (Bool-cases
        (not (is_empty hs) && ltb 0 job.cookie_id && not (text_eq merged r.cookie_str))) [
          | inl y ↦ rw y h
          | inr n ↦ rw n h
        ]

  note_exit-At :
      (s : S) (b : Bool) (e : Text) (r : Run S) → At s r → At s (note_exit up rd job b e r)
  unfolding note_exit
  note_exit-At s b e r h = elim (Bool-cases (ltb 0 job.exit.id)) [ inl y ↦ rw y h | inr n ↦ rw n h ]

  -- The next attempt follows, at the same state.
  abbrev GoesOn : S → Next × Run S → Type 0
  GoesOn s out = (out.0 ≡ next_attempt) × At s out.1

  noted-GoesOn :
      (s : S) (e : Text) (r : Run S)
      → At s r
      → GoesOn s (stop_or_next up rd job (note_exit up rd job false e r))
  unfolding stop_or_next
  noted-GoesOn s e r h =
      let (at, quiet) = note_exit-At s false e r h in
      (ap (λ b. if b then stop else next_attempt) quiet, (at, quiet))

  on_answer-GoesOn :
      (s : S) (a : Answer) (r : Run S) → MayPass a → At s r → GoesOn s (on_answer up rd job a r)
  unfolding on_answer on_error on_refused on_status on_body
  on_answer-GoesOn s (net_error e) r pass h =
      rw pass (noted-GoesOn s e (record r { last_error = some e }) h)
  on_answer-GoesOn s (http status raw) r (inl (ok_status, empty, other)) h =
      let y : (status == 200) ≡ true = ground arith in
      rw y (
        rw (empty, other)
          (noted-GoesOn s (no_content up rd job raw)
            (record r { last_error = some (no_content up rd job raw) }) h))
  on_answer-GoesOn s (http status raw) r (inr (bad, other)) h =
      let err = http_error up rd job status raw in
      rw (bad, other)
        (noted-GoesOn s err (record r { last_error = some err; last_status = status }) h)

  -- Whether anything is given to the client once lines were pushed.
  abbrev given_after : Run S → List Text → Bool
  given_after r lines =
      let (e, t) =
        push_lines rd job.wants_text job.wants_reasoning lines (r.emitted, r.emitted_reasoning) in
      not (is_empty e) || not (is_empty t)

  send_request-At :
      (r : Run S)
      → has_emitted r ≡ false
      → (up.do_request (request_of up rd job r) r.world.outside).0.lines ≡ []
      → At (up.do_request (request_of up rd job r) r.world.outside).1 (send_request up rd job r).1
  unfolding send_request push_lines
  send_request-At r quiet none_of = (refl, ap (given_after r) none_of ∙ quiet)

  attempt-GoesOn :
      (k : ℕ) (raw : Text) (r : Run S)
      → has_emitted r ≡ false
      → Recovers (suc k) raw r.world.outside
      → ((attempt up rd job r).0 ≡ next_attempt)
        × (has_emitted (attempt up rd job r).1 ≡ false)
        × Recovers k raw (attempt up rd job r).1.world.outside
  unfolding attempt send_request
  attempt-GoesOn k raw r quiet h =
      let q = request_of up rd job r in
      let (none_of, pass, later) = h q in
      let (reply, s') = up.do_request q r.world.outside in
      let r1 = (send_request up rd job r).1 in
      let taken = take_cookies-At s' reply.set_cookie r1 (send_request-At r quiet none_of) in
      let (goes, (at, still)) =
        on_answer-GoesOn s' reply.answer (take_cookies up rd job reply.set_cookie r1) pass taken in
      (goes, still, subst (Recovers k raw) (sym at) later)

  attempt-answers :
      (raw : Text) (r : Run S)
      → rd.has_content_frame raw ≡ true
      → Recovers 0 raw r.world.outside
      → (attempt up rd job r).0 ≡ answered_with raw
  unfolding attempt send_request on_answer on_body
  attempt-answers raw r content h =
      let q = request_of up rd job r in
      let (reply, r') = send_request up rd job r in
      let r1 = take_cookies up rd job reply.set_cookie r' in
      ap (λ a. (on_answer up rd job a r1).0) (h q) ∙ rw content refl

  -- For every upstream and budget: where, from the state that the loop starts in, fewer requests than the
  -- budget fail in a way that may pass, an error of the network, a body without content or a status but
  -- 200 and 400, with no line read, and the next is answered with content, the loop returns that
  -- answer, whatever the account, the exit and the proxy pool become in between.
  pub attempts-Recovers :
      (f made k : ℕ) (raw : Text) (r : Run S)
      → k < f
      → made + k < job.retry_budget
      → rd.has_content_frame raw ≡ true
      → has_emitted r ≡ false
      → Recovers k raw r.world.outside
      → (r' : Run S) × (attempts up rd job f made r ≡ some (some raw, r'))
  unfolding attempts continue_with
  attempts-Recovers zero made k raw r lt room content quiet h = absurd (omega (arith, lt))
  attempts-Recovers (suc f) made zero raw r lt room content quiet h =
      let open_at : leb job.retry_budget made ≡ false = ground arith in
      let r' = (attempt up rd job r).1 in
      let again = attempts up rd job f made r' in
      let next = attempts up rd job f (made + 1) r' in
      (
        r',
        rw open_at (
            ap (λ n. continue_with up rd job again next (n, r')) (attempt-answers raw r content h)),
      )
  attempts-Recovers (suc f) made (suc k) raw r lt room content quiet h =
      let open_at : leb job.retry_budget made ≡ false = ground arith in
      let (goes, still, later) = attempt-GoesOn k raw r quiet h in
      let (r', e) =
        attempts-Recovers f (made + 1) k raw (attempt up rd job r).1 (omega (arith, lt))
          (omega (arith, room)) content still later in
      let r1 = (attempt up rd job r).1 in
      let again = attempts up rd job f made r1 in
      let next = attempts up rd job f (made + 1) r1 in
      (r', rw open_at (ap (λ n. continue_with up rd job again next (n, r1)) goes ∙ e))
