-- ===== src/Request/Generate/Returns.antt =====
-- streamGenerateWithFiles as a whole: it returns, gives its slot back, and moves no account.
use gemini_web2api_go_browse.Prelude.{
  ℕ, ◌+◌, ◌≡◌, ◌≢◌, refl, sym, ap, subst, ◌∙◌, inl, inr, Bool, true, false, not, ◌&&◌, List, [],
  ◌++◌, Option, none, some, arith, amount, ltb, ◌==◌, if◌then◌else◌, length, is_empty, Bool-cases,
  Text,
}
use gemini_web2api_go_browse.RateLimit.{Slots, get_slot, slot_release}
use gemini_web2api_go_browse.RateLimit.Slots.{slot_release-inflight}
use gemini_web2api_go_browse.ProxyPool.{Proxy, Acquired, ok, err, acquire_slot}
use gemini_web2api_go_browse.ProxyPool.Held.{held, Adds, acquire_slot-Adds}
use gemini_web2api_go_browse.CookiePool.{CookieAccount}
use gemini_web2api_go_browse.CookiePool.Identity.{DistinctAccounts, identities}
use gemini_web2api_go_browse.CookiePool.Kept.{identities-DistinctAccounts}
use gemini_web2api_go_browse.Runtime.{RuntimeConfig}
use gemini_web2api_go_browse.Xsrf.{Result, success, failure}
use gemini_web2api_go_browse.Request.{FileRef, Upstream, World, settings_of}
use gemini_web2api_go_browse.Request.Kept.{Kept, Kept-refl}
use gemini_web2api_go_browse.Request.Login.{Login, Session, pick_account}
use gemini_web2api_go_browse.Request.Login.Rounds.{pick_account-Kept, login-total}
use gemini_web2api_go_browse.Request.Files.{Prepared, prepare_context_file, upload_all}
use gemini_web2api_go_browse.Request.Attempts.{Run, Reader}
use gemini_web2api_go_browse.Request.Attempts.Budget.{attempts-total}
use gemini_web2api_go_browse.Request.Attempts.Keeps.{Good, attempts-Kept}
use gemini_web2api_go_browse.Request.Generate.{
  Generated, accounts_failed, out_of_fuel, Ask, prefer_of, new_run, came_to, job_of, logged_in,
  run_job, within_budget, with_context, with_uploads, with_session, session_of, degraded, by_error,
  after_login, through_exit, released, stream_generate,
}

-- A result that is not for want of fuel.
abbrev pub Returned : Generated → Type 0
Returned out = out ≢ out_of_fuel

module _ {S : Type 0} (up : Upstream S) (rd : Reader) (c : RuntimeConfig) (q : Ask) (w0 : World S)
    (distinct : DistinctAccounts w0.accounts) where
  -- A result in time, in a world that was kept.
  abbrev Fine : Generated × World S → Type 0
  Fine (out, w) = Returned out × Kept w0 w

  if-Fine : (b : Bool) (x y : Generated × World S) → Fine x → Fine y → Fine (if b then x else y)
  if-Fine true x y fx fy = fx
  if-Fine false x y fx fy = fy

  came_to-Fine :
      (w : World S) (out : Option Text) (r : Run S)
      → Kept w0 r.world
      → Fine (came_to w (some (out, r)))
  unfolding came_to
  came_to-Fine w none r k = ((λ e. cc), k)
  came_to-Fine w (some raw) r k = ((λ e. cc), k)

  module _ (exit : Proxy) where
    run_job-Fine :
        (l : Login S) (session : Session) (files : List FileRef) (prompt : Text) (w : World S)
        → Kept w0 w
        → Fine (run_job up rd c q exit l session files prompt w)
    unfolding run_job new_run
    run_job-Fine l session files prompt w k =
        let job = job_of up rd c q exit l session files prompt in
        let r : Run S = new_run session w in
        let (out, r', e, few, after) = attempts-total up rd job r refl refl refl in
        let kept = attempts-Kept up rd job w0 distinct (job.retry_budget + 2) 0 r k in
        subst (λ o. Fine (came_to w o)) (sym e)
          (came_to-Fine w out r' (subst (Good up rd job w0 distinct) e kept))

    within_budget-Fine :
        (l : Login S) (session : Session) (files : List FileRef) (prompt : Text) (w : World S)
        → Kept w0 w
        → Fine (within_budget up rd c q exit l session files prompt w)
    unfolding within_budget
    within_budget-Fine l session files prompt w k =
        let budget = amount c.max_prompt_bytes in
        elim (Bool-cases (ltb 0 budget && ltb budget (length prompt))) [
          | inl y ↦ rw y ((λ e. cc), k)
          | inr n ↦ rw n (run_job-Fine l session files prompt w k)
        ]

    with_context-Fine :
        (l : Login S) (session : Session) (files : List FileRef) (w : World S)
        (got : Result Prepared) (s : S)
        → Kept w0 w
        → Fine (with_context up rd c q exit l session files w (got, s))
    unfolding with_context
    with_context-Fine l session files w (failure e) s k =
        ((λ e. cc), record { slots = k.slots; accounts = k.accounts })
    with_context-Fine l session files w (success p) s k =
        within_budget-Fine l session (files ++ p.added) p.prompt (record w { outside = s })
          (record { slots = k.slots; accounts = k.accounts })

    with_uploads-Fine :
        (l : Login S) (session : Session) (w : World S) (got : Result (List FileRef)) (s : S)
        → Kept w0 w
        → Fine (with_uploads up rd c q exit l session w (got, s))
    unfolding with_uploads
    with_uploads-Fine l session w (failure e) s k =
        ((λ e. cc), record { slots = k.slots; accounts = k.accounts })
    with_uploads-Fine l session w (success files) s k =
        let (got, s') =
          prepare_context_file up session.cookie_str exit.url session.auth_user q.prompt q.latest
            (amount c.max_prompt_bytes) s in
        with_context-Fine l session files (record w { outside = s }) got s'
          (record { slots = k.slots; accounts = k.accounts })

    with_session-Fine :
        (l : Login S) (session : Session)
        → Kept w0 l.world
        → Fine (with_session up rd c q exit l session)
    unfolding with_session
    with_session-Fine l session k =
        let (got, s) =
          upload_all up session.cookie_str exit.url session.auth_user q.pending l.world.outside in
        elim (Bool-cases (not (is_empty q.pending) && is_empty session.cookie_str)) [
          | inl y ↦ rw y ((λ e. cc), k)
          | inr n ↦ rw n (with_uploads-Fine l session l.world got s k)
        ]

    degraded-Fine : (l : Login S) (e : Text) → Kept w0 l.world → Fine (degraded up rd c q exit l e)
    unfolding degraded
    degraded-Fine l e k =
        if-Fine c.fallback_anon
          (with_session up rd c q exit (record l { cookie_id = 0; cookie_label = [] })
            (session_of l.session))
          (accounts_failed (length l.tried) e, l.world)
          (with_session-Fine (record l { cookie_id = 0; cookie_label = [] }) (session_of l.session)
            k)
          ((λ e. cc), k)

    by_error-Fine :
        (l : Login S) (o : Option Text) → Kept w0 l.world → Fine (by_error up rd c q exit l o)
    unfolding by_error
    by_error-Fine l none k = with_session-Fine l (session_of l.session) k
    by_error-Fine l (some e) k =
        if-Fine (is_empty l.session.cookie_str) (degraded up rd c q exit l e)
          (with_session up rd c q exit l (session_of l.session)) (degraded-Fine l e k)
          (with_session-Fine l (session_of l.session) k)

    through_exit-Fine :
        (acct : Option CookieAccount) (w : World S)
        → Kept w0 w
        → Fine (through_exit up rd c q exit acct w)
    unfolding through_exit logged_in after_login
    through_exit-Fine acct w k =
        let (l, e, few, once, k') = login-total up c w0 distinct exit acct w k in
        subst (λ o. Fine (logged_in up rd c q exit w o)) (sym e) (by_error-Fine l l.last_error k')

-- The slots, where a request that holds one returns it.
returned :
    (i j : ℕ) (m m' : Slots)
    → Adds j (if i == j then 1 else 0) m m'
    → (get_slot j (slot_release i m')).inflight ≡ (get_slot j m).inflight
returned i j m m' h = ground (arith, slot_release-inflight i j m', h)

module _ {S : Type 0} (up : Upstream S) (rd : Reader) (c : RuntimeConfig) (q : Ask) where
  -- What a request leaves of the world before it.
  abbrev Leaves : World S → Generated × World S → Type 0
  Leaves w0 (out, w) =
      (out ≢ out_of_fuel)
      × ((j : ℕ) → (get_slot j w.slots).inflight ≡ (get_slot j w0.slots).inflight)
      × (identities w.accounts ≡ identities w0.accounts)

  released-Leaves :
      (acct : Option CookieAccount) (w0 w : World S) (got : Acquired)
      → DistinctAccounts w0.accounts
      → identities w.accounts ≡ identities w0.accounts
      → ((j : ℕ) → Adds j (held got j) w0.slots w.slots)
      → Leaves w0 (released up rd c q acct w got)
  unfolding released
  released-Leaves acct w0 w (err e) d same h = ((λ e. cc), (λ j. omega (arith, h j)), same)
  released-Leaves acct w0 w (ok p) d same h =
      let d' = identities-DistinctAccounts w0.accounts w.accounts same d in
      let (back, kept) = through_exit-Fine up rd c q w d' p acct w (Kept-refl w) in
      let (out, w') = through_exit up rd c q p acct w in
      (
        back,
        (λ j.
            ap (λ m. (get_slot j (slot_release p.id m)).inflight) kept.slots
            ∙ returned p.id j w0.slots w.slots (h j)),
        kept.accounts ∙ same,
      )

  -- For every upstream, whatever it answers, on rows with distinct ids, and every configuration and
  -- question: the request returns, on the fuel that it is given; every exit, the one that it took and
  -- the others, has as many calls in flight as before it, on every path; and every row is of
  -- the account that its cookie was of.
  pub stream_generate-returns :
      (w : World S)
      → DistinctAccounts w.accounts
      → let (out, w') = stream_generate up rd c q w in
        (out ≢ out_of_fuel)
        × ((j : ℕ) → (get_slot j w'.slots).inflight ≡ (get_slot j w.slots).inflight)
        × (identities w'.accounts ≡ identities w.accounts)
  unfolding stream_generate
  stream_generate-returns w0 d =
      let (acct, w) = pick_account up c q.model (not (is_empty q.pending)) w0 in
      let picked =
        pick_account-Kept up c w0 d q.model (not (is_empty q.pending)) w0 (Kept-refl w0) in
      let now = up.clock w.outside in
      let prefer = prefer_of acct in
      let (got, slots, pool) = acquire_slot (settings_of c) now prefer w.proxies w.slots in
      released-Leaves acct w0 (record w { slots = slots; proxies = pool }) got d picked.accounts
        (λ j.
          subst (λ m. Adds j (held got j) m slots) picked.slots
            (acquire_slot-Adds (settings_of c) now prefer j w.proxies w.slots))
