-- ===== src/Request/Attempts/Budget.antt =====
-- How often the loop of requests sends one: it ends, within its budget.
use gemini_web2api_go_browse.Prelude.{
  ℕ, zero, suc, ◌+◌, ◌-◌, ◌≤◌, ◌<◌, ◌≡◌, refl, ap, subst, sym, ◌∙◌, inl, inr, Bool, true, false,
  not, ◌&&◌, List, [], ◌∷◌, Option, some, arith, ltb, leb, ◌==◌, if◌then◌else◌, length, keep,
  is_empty, Bool-cases, Option-cases, Text, text_eq, leb→le,
}
use gemini_web2api_go_browse.CookiePool.Merge.{merge_set_cookie}
use gemini_web2api_go_browse.Models.{tool_video}
use gemini_web2api_go_browse.Xsrf.{Result, success, failure, is_xsrf_error}
use gemini_web2api_go_browse.Request.{Sent, Answer, net_error, http, Upstream, is_timeout_error}
use gemini_web2api_go_browse.Request.Attempts.{
  Job, Run, Next, same_again, next_attempt, stop, answered_with, Reader, has_emitted, send_request,
  take_cookies, request_of, note_exit, stop_or_next, on_error, on_status, http_error, renewed_token,
  on_refused, no_content, on_body, on_answer, attempt, finish, continue_with, attempts,
}

-- The requests that were sent after something had been given to the client.
abbrev pub late : List (Sent × Bool) → List (Sent × Bool)
late = keep λ x. x.1

-- One request more than the attempts where the token was renewed.
abbrev pub extra : Bool → ℕ
extra retried = if retried then 1 else 0

length-late :
    (q : Sent) (b : Bool) (xs : List (Sent × Bool))
    → length (late ((q, b) ∷ xs)) ≡ length (late xs) + extra b
length-late q true xs = omega arith
length-late q false xs = omega arith

extra_le : (b : Bool) → extra b ≤ 1
extra_le true = omega arith
extra_le false = omega arith

module _ {S : Type 0} (up : Upstream S) (rd : Reader) (job : Job) where
  -- The counts of a run.
  abbrev counts_of : Run S → Bool × List (Sent × Bool)
  counts_of r = (r.xsrf_retried, r.sent)

  take_cookies-counts :
      (hs : List Text) (r : Run S)
      → (counts_of (take_cookies up rd job hs r) ≡ counts_of r)
        × (has_emitted (take_cookies up rd job hs r) ≡ has_emitted r)
  unfolding take_cookies
  take_cookies-counts hs r =
      let merged = merge_set_cookie r.cookie_str hs in
      elim (Bool-cases
        (not (is_empty hs) && ltb 0 job.cookie_id && not (text_eq merged r.cookie_str))) [
          | inl y ↦ rw y (refl, refl)
          | inr n ↦ rw n (refl, refl)
        ]

  note_exit-counts :
      (b : Bool) (e : Text) (r : Run S)
      → (counts_of (note_exit up rd job b e r) ≡ counts_of r)
        × (has_emitted (note_exit up rd job b e r) ≡ has_emitted r)
  unfolding note_exit
  note_exit-counts b e r = elim (Bool-cases (ltb 0 job.exit.id)) [
    | inl y ↦ rw y (refl, refl)
    | inr n ↦ rw n (refl, refl)
  ]

  -- What may be said of the end of an attempt: the next one follows only where nothing was given to the
  -- client, and the same one only where the token had not been renewed before, and is now.
  abbrev Ends : Run S → Next × Run S → Type 0
  Ends r (same_again, r') = (r.xsrf_retried ≡ false) × (r'.xsrf_retried ≡ true) × (r'.sent ≡ r.sent)
  Ends r (next_attempt, r') =
      (has_emitted r' ≡ false) × (extra r.xsrf_retried ≤ extra r'.xsrf_retried) × (r'.sent ≡ r.sent)
  Ends r (stop, r') = (extra r.xsrf_retried ≤ extra r'.xsrf_retried) × (r'.sent ≡ r.sent)
  Ends r (answered_with raw, r') =
      (extra r.xsrf_retried ≤ extra r'.xsrf_retried) × (r'.sent ≡ r.sent)

  stop_or_next-Ends :
      (r r' : Run S)
      → extra r.xsrf_retried ≤ extra r'.xsrf_retried
      → r'.sent ≡ r.sent
      → Ends r (stop_or_next up rd job r')
  unfolding stop_or_next
  stop_or_next-Ends r r' le e = elim (Bool-cases (has_emitted r')) [
    | inl y ↦ rw y (le, e)
    | inr n ↦ rw n (n, le, e)
  ]

  noted-Ends :
      (b : Bool) (e : Text) (r r' : Run S)
      → extra r.xsrf_retried ≤ extra r'.xsrf_retried
      → r'.sent ≡ r.sent
      → Ends r (stop_or_next up rd job (note_exit up rd job b e r'))
  noted-Ends b e r r' le same =
      let counts = (note_exit-counts b e r').0 in
      stop_or_next-Ends r (note_exit up rd job b e r')
        (subst (λ x. extra r.xsrf_retried ≤ extra x) (sym (ap (λ x. x.0) counts)) le)
        (ap (λ x. x.1) counts ∙ same)

  le_refl : (n : ℕ) → n ≤ n
  le_refl n = omega arith

  on_error-Ends : (e : Text) (r : Run S) → Ends r (on_error up rd job e r)
  unfolding on_error
  on_error-Ends e r = elim (Bool-cases (ltb 0 job.model.tool && is_timeout_error e)) [
    | inl y ↦ rw y (le_refl (extra r.xsrf_retried), refl)
    | inr n ↦ rw n (
        noted-Ends false e r (record r { last_error = some e }) (le_refl (extra r.xsrf_retried))
          refl)
  ]

  on_status-Ends :
      (status : ℕ) (raw : Text) (r r' : Run S)
      → extra r.xsrf_retried ≤ extra r'.xsrf_retried
      → r'.sent ≡ r.sent
      → Ends r (on_status up rd job status raw r')
  unfolding on_status
  on_status-Ends status raw r r' le same =
      let err = http_error up rd job status raw in
      noted-Ends false err r (record r' { last_error = some err; last_status = status }) le same

  renewed_token-Ends :
      (status : ℕ) (raw : Text) (r : Run S) (got : Result Text) (s : S)
      → r.xsrf_retried ≡ false
      → Ends r (renewed_token up rd job status raw (record r { xsrf_retried = true }) (got, s))
  unfolding renewed_token
  renewed_token-Ends status raw r (success tok) s first = (first, refl, refl)
  renewed_token-Ends status raw r (failure e) s first =
      on_status-Ends status raw r
        (record r { xsrf_retried = true; world = record r.world { outside = s } })
        (rw first (omega arith)) refl

  on_refused-Ends :
      (status : ℕ) (raw : Text) (r : Run S) → Ends r (on_refused up rd job status raw r)
  unfolding on_refused
  on_refused-Ends status raw r =
      elim (Bool-cases
        (status == 400 && is_xsrf_error raw && not (is_empty r.cookie_str) && not r.xsrf_retried)) [
          | inr n ↦ rw n (on_status-Ends status raw r r (le_refl (extra r.xsrf_retried)) refl)
          | inl y ↦
              let (got, s) =
                up.get_xsrf r.cookie_str job.exit.url job.authuser
                  (up.invalidate_xsrf r.cookie_str job.authuser r.world.outside) in
              let first : r.xsrf_retried ≡ false = ground arith in
              rw y (renewed_token-Ends status raw r got s first)
        ]

  on_body-Ends : (raw : Text) (r : Run S) → Ends r (on_body up rd job raw r)
  unfolding on_body
  on_body-Ends raw r =
      let accepted = job.model.tool == tool_video && rd.has_conversation raw in
      elim (Bool-cases (not (rd.has_content_frame raw) && not accepted)) [
        | inl y ↦ rw y (
            noted-Ends false (no_content up rd job raw) r
              (record r { last_error = some (no_content up rd job raw) })
              (le_refl (extra r.xsrf_retried)) refl)
        | inr n ↦
            let counts = (note_exit-counts true [] r).0 in
            rw n (
              subst (λ x. extra r.xsrf_retried ≤ extra x) (sym (ap (λ x. x.0) counts))
                  (le_refl (extra r.xsrf_retried)),
              ap (λ x. x.1) counts,
            )
      ]

  on_answer-Ends : (a : Answer) (r : Run S) → Ends r (on_answer up rd job a r)
  unfolding on_answer
  on_answer-Ends (net_error e) r = on_error-Ends e r
  on_answer-Ends (http status raw) r = elim (Bool-cases (status == 200)) [
    | inl y ↦ rw y (on_body-Ends raw r)
    | inr n ↦ rw n (on_refused-Ends status raw r)
  ]

  -- One attempt sends one request.
  attempt-Ends :
      (r : Run S)
      → (r1 : Run S) × (r1.xsrf_retried ≡ r.xsrf_retried)
        × (length r1.sent ≡ suc (length r.sent))
        × (length (late r1.sent) ≡ length (late r.sent) + extra (has_emitted r))
        × Ends r1 (attempt up rd job r)
  unfolding attempt send_request
  attempt-Ends r =
      let (reply, r') = send_request up rd job r in
      let r1 = take_cookies up rd job reply.set_cookie r' in
      let counts = (take_cookies-counts reply.set_cookie r').0 in
      (
        r1,
        ap (λ x. x.0) counts,
        ap (λ x. length x.1) counts,
        ap (λ x. length (late x.1)) counts
            ∙ length-late (request_of up rd job r) (has_emitted r) r.sent,
        on_answer-Ends reply.answer r1,
      )

  finish-counts : (r : Run S) → counts_of (finish up rd job r).1 ≡ counts_of r
  unfolding finish
  finish-counts r = elim (Option-cases r.last_error) [
    | inl e ↦ rw e refl
    | inr (err, e) ↦ rw e refl
  ]

  -- The loop ended in a run whose counts are within the budget.
  abbrev Ended : Option (Option Text × Run S) → Type 0
  Ended o =
      (out : Option Text) × (r : Run S) × (o ≡ some (out, r))
      × (length r.sent ≤ job.retry_budget + extra r.xsrf_retried)
      × (length (late r.sent) ≤ extra r.xsrf_retried)

  finish-Ended :
      (r : Run S)
      → length r.sent ≤ job.retry_budget + extra r.xsrf_retried
      → length (late r.sent) ≤ extra r.xsrf_retried
      → Ended (some (finish up rd job r))
  finish-Ended r few after =
      let (out, r') = finish up rd job r in
      let counts = finish-counts r in
      let retried : r'.xsrf_retried ≡ r.xsrf_retried = ap (λ x. x.0) counts in
      let sent : r'.sent ≡ r.sent = ap (λ x. x.1) counts in
      (
        out,
        r',
        refl,
        subst (λ x. length x.1 ≤ job.retry_budget + extra x.0) (sym counts) few,
        subst (λ x. length (late x.1) ≤ extra x.0) (sym counts) after,
      )

  -- A run at the head of the loop.
  abbrev Ready : ℕ → Run S → Type 0
  Ready made r =
      (made ≤ job.retry_budget)
      × (length r.sent ≤ made + extra r.xsrf_retried)
      × (length (late r.sent) + extra (has_emitted r) ≤ extra r.xsrf_retried)

  -- A run behind a request, of which the loop goes on or ends.
  abbrev Behind : ℕ → Run S → Type 0
  Behind made r =
      (made < job.retry_budget)
      × (length r.sent ≤ made + 1 + extra r.xsrf_retried)
      × (length (late r.sent) ≤ extra r.xsrf_retried)

  Behind-end :
      (made : ℕ) (r r' : Run S)
      → Behind made r
      → extra r.xsrf_retried ≤ extra r'.xsrf_retried
      → r'.sent ≡ r.sent
      → (length r'.sent ≤ job.retry_budget + extra r'.xsrf_retried)
        × (length (late r'.sent) ≤ extra r'.xsrf_retried)
  Behind-end made r r' (lt, few, after) le same = (
    subst (λ x. length x ≤ job.retry_budget + extra r'.xsrf_retried) (sym same) (omega arith),
    subst (λ x. length (late x) ≤ extra r'.xsrf_retried) (sym same) (omega arith),
  )

  Behind-again :
      (made : ℕ) (r r' : Run S)
      → Behind made r
      → r.xsrf_retried ≡ false
      → r'.xsrf_retried ≡ true
      → r'.sent ≡ r.sent
      → Ready made r'
  Behind-again made r r' (lt, few, after) first now same =
      let none_yet : extra r.xsrf_retried ≡ 0 = ap extra first in
      let one : extra r'.xsrf_retried ≡ 1 = ap extra now in
      let bound = extra_le (has_emitted r') in
      (
        omega arith,
        subst (λ x. length x ≤ made + extra r'.xsrf_retried) (sym same) (omega arith),
        subst (λ x. length (late x) + extra (has_emitted r') ≤ extra r'.xsrf_retried) (sym same)
            (omega arith),
      )

  Behind-next :
      (made : ℕ) (r r' : Run S)
      → Behind made r
      → has_emitted r' ≡ false
      → extra r.xsrf_retried ≤ extra r'.xsrf_retried
      → r'.sent ≡ r.sent
      → Ready (made + 1) r'
  Behind-next made r r' (lt, few, after) quiet le same =
      let nothing : extra (has_emitted r') ≡ 0 = ap extra quiet in
      (
        omega arith,
        subst (λ x. length x ≤ made + 1 + extra r'.xsrf_retried) (sym same) (omega arith),
        subst (λ x. length (late x) + extra (has_emitted r') ≤ extra r'.xsrf_retried) (sym same)
            (omega arith),
      )

  continue-Ended :
      (again next : Option (Option Text × Run S)) (made : ℕ) (n : Next) (r r' : Run S)
      → Behind made r
      → Ends r (n, r')
      → (r.xsrf_retried ≡ false → r'.xsrf_retried ≡ true → Ready made r' → Ended again)
      → (extra r.xsrf_retried ≤ extra r'.xsrf_retried → Ready (made + 1) r' → Ended next)
      → Ended (continue_with up rd job again next (n, r'))
  unfolding continue_with
  continue-Ended again next made same_again r r' b (first, now, same) f g =
      f first now (Behind-again made r r' b first now same)
  continue-Ended again next made next_attempt r r' b (quiet, le, same) f g =
      g le (Behind-next made r r' b quiet le same)
  continue-Ended again next made stop r r' b (le, same) f g =
      let (few, after) = Behind-end made r r' b le same in finish-Ended r' few after
  continue-Ended again next made (answered_with raw) r r' b (le, same) f g =
      let (few, after) = Behind-end made r r' b le same in (some raw, r', refl, few, after)

  attempts-Ended :
      (f made : ℕ) (r : Run S)
      → (job.retry_budget - made) + (1 - extra r.xsrf_retried) < f
      → Ready made r
      → Ended (attempts up rd job f made r)
  unfolding attempts
  attempts-Ended zero made r fuel ready = absurd (omega (arith, fuel))
  attempts-Ended (suc f) made r fuel (le, few, after) =
      let (r1, retried, one_more, late_more, ends) = attempt-Ends r in
      let (n, r') = attempt up rd job r in
      let flag : extra r1.xsrf_retried ≡ extra r.xsrf_retried = ap extra retried in
      elim (Bool-cases (leb job.retry_budget made)) [
        | inl y ↦
            let full = leb→le job.retry_budget made y in
            rw y (finish-Ended r (omega (arith, full)) (omega arith))
        | inr z ↦
            let room : made < job.retry_budget = ground arith in
            rw z (
              continue-Ended (attempts up rd job f made r') (attempts up rd job f (made + 1) r')
                made n r1 r' (room, omega (arith, one_more, flag), omega (arith, late_more, flag))
                ends
                (λ first now ready.
                  attempts-Ended f made r' (omega (arith, flag, ap extra first, ap extra now, room))
                    ready)
                (λ more ready.
                  attempts-Ended f (made + 1) r' (omega (arith, flag, room, more)) ready))
      ]

  -- For every upstream, whatever it answers, and every budget: a loop that starts with nothing sent, nothing
  -- given to the client and the token not yet renewed comes to an end on the fuel that it is given; it
  -- sends no more requests than its budget, and one more only where it renewed the token; and it sends
  -- none once something was given to the client, but for at most that one.
  pub attempts-total :
      (r : Run S)
      → r.sent ≡ []
      → r.xsrf_retried ≡ false
      → has_emitted r ≡ false
      → (out : Option Text) × (r' : Run S) × (attempts up rd job (job.retry_budget + 2) 0 r
          ≡ some (out, r'))
        × (length r'.sent ≤ job.retry_budget + extra r'.xsrf_retried)
        × (length (late r'.sent) ≤ extra r'.xsrf_retried)
  attempts-total r nothing first quiet =
      let unsent : length r.sent ≡ 0 = ap length nothing in
      let unlate : length (late r.sent) ≡ 0 = ap (λ x. length (late x)) nothing in
      let none_yet : extra r.xsrf_retried ≡ 0 = ap extra first in
      let silent : extra (has_emitted r) ≡ 0 = ap extra quiet in
      attempts-Ended (job.retry_budget + 2) 0 r (omega (arith, none_yet))
        (omega arith, omega (arith, unsent), omega (arith, unlate, silent, none_yet))
