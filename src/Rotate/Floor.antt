-- ===== src/Rotate/Floor.antt =====
-- The requests for a 1PSIDTS, over any attempts: how far apart they are.
use gemini_web2api_go_browse.Prelude.{
  ◌||◌, ℕ, ◌+◌, ◌≤◌, ◌≡◌, refl, sym, ap, ◌∙◌, inl, inr, Bool, true, false, not, ◌&&◌, List, [], ◌∷◌,
  Option, some, arith, ◌==◌, if◌then◌else◌, Bool-cases, subst, index, has_prefix, All, Text, codes,
  is_empty,
}
use gemini_web2api_go_browse.CookiePool.{cookie_value}
use gemini_web2api_go_browse.AuthUser.{itoa}
use gemini_web2api_go_browse.CookiePool.Merge.{cookie_subset}
use gemini_web2api_go_browse.Rotate.{
  Answered, failed, answered, Renewed, answer_1psidts, rotate_1psidts_cookies, rotate_1psidts_body,
  Asked, last_asked, set_asked, floor_passed, allow_1psidts_rotate, noted, status_error, contains,
  note_1psidts_attempt, rotate_1psidts, error_of, try_rotate_1psidts,
}

-- One attempt: when it begins and how long its request takes, its account, cookie and exit, and what the
-- network answers at that time. Attempts follow one another: each ends before the next begins, as those of
-- one caller do.
pub record Attempt : Type 0 where
  pub now : ℕ
  pub took : ℕ
  pub account : ℕ
  pub cookie : Text
  pub proxy_url : Text
  pub post : Text → Text → Text → Answered

-- A request that was sent: for which account, when, when it was answered, and whether its answer counts.
pub record Sent : Type 0 where
  pub account : ℕ
  pub time : ℕ
  pub done : ℕ
  pub counts : Bool

-- The statuses that Google gives to a renewed session, to a dead one and to a rate.
pub counted : Answered → Bool
counted (failed e) = false
counted (answered status set_cookie body) =
    status == 200 || status == 401 || status == 403 || status == 429

-- The text of an error of a status has the status.
message : ℕ → Text → Text
message status body = status_error (codes "RotateCookies 1PSIDTS") status body

message-401 : (body : Text) → contains (codes "HTTP 401") (message 401 body) ≡ true
unfolding message status_error contains index has_prefix itoa
message-401 body = refl

message-403 : (body : Text) → contains (codes "HTTP 403") (message 403 body) ≡ true
unfolding message status_error contains index has_prefix itoa
message-403 body = refl

message-429 : (body : Text) → contains (codes "HTTP 429") (message 429 body) ≡ true
unfolding message status_error contains index has_prefix itoa
message-429 body = refl

noted-message :
    (status : ℕ) (body : Text)
    → (status == 401 || status == 403 || status == 429) ≡ true
    → noted (some (message status body)) ≡ true
unfolding noted
noted-message status body h = elim (Bool-cases (status == 401)) [
  | inl y ↦
      let at : 401 ≡ status = ground arith in
      let said =
        subst (λ n. contains (codes "HTTP 401") (message n body) ≡ true) at (message-401 body) in
      ground arith
  | inr n ↦ elim (Bool-cases (status == 403)) [
    | inl y ↦
        let at : 403 ≡ status = ground arith in
        let said =
          subst (λ n. contains (codes "HTTP 403") (message n body) ≡ true) at (message-403 body) in
        ground arith
    | inr m ↦
        let at : 429 ≡ status = ground arith in
        let said =
          subst (λ n. contains (codes "HTTP 429") (message n body) ≡ true) at (message-429 body) in
        ground arith
  ]
]

noted-counted :
    (cookie : Text) (a : Answered)
    → counted a ≡ true
    → noted (error_of (answer_1psidts cookie a)) ≡ true
unfolding counted error_of answer_1psidts message
noted-counted cookie (failed e) h = absurd cc
noted-counted cookie (answered status hs body) h = elim (Bool-cases (status == 200)) [
  | inl y ↦ rw y (unfold noted in refl)
  | inr n ↦ rw n (noted-message status body (rw n at h))
]

module _ (page : Text → Text → Answered) (init_params : Text → Option (Text × Option ℕ)) where
  sends_of : Attempt → Asked → Bool
  sends_of c m =
      not (is_empty (cookie_value c.cookie (codes "__Secure-1PSID")))
      && allow_1psidts_rotate c.now c.account m

  answer_of : Attempt → Answered
  answer_of c =
      c.post (cookie_subset c.cookie rotate_1psidts_cookies) rotate_1psidts_body c.proxy_url

  notes : Attempt → Bool
  notes c = noted (error_of (rotate_1psidts c.post page init_params c.cookie c.proxy_url).0)

  sent_of : Attempt → Sent
  unfolding answer_of
  sent_of c = record {
    account = c.account;
    time = c.now;
    done = c.now + c.took;
    counts = counted (answer_of c);
  }

  tried : Attempt → Asked → Renewed × List Text × Asked
  tried c m =
      try_rotate_1psidts c.post page init_params c.now (c.now + c.took) (λ n. n) c.account c.cookie
        c.proxy_url m

  attempt : Attempt → Asked → Asked
  unfolding tried
  attempt c m = (tried c m).2

  -- One request for each body that an attempt posts.
  abbrev each : List Text → Sent → List Sent → List Sent
  each [] s rest = rest
  each (body ∷ bodies) s rest = s ∷ each bodies s rest

  -- The requests that attempts post, in order.
  pub sends : List Attempt → Asked → List Sent
  unfolding tried sent_of attempt
  sends [] m = []
  sends (c ∷ cs) m = each (tried c m).1 (sent_of c) (sends cs (attempt c m))

  abbrev After : ℕ → ℕ → List Sent → Type 0
  After i t = All λ f. f.account ≡ i → t + 60 ≤ f.time

  -- Of two requests for one account, the later comes a minute after the answer to the earlier or more, where
  -- that counts.
  abbrev pub Spaced : List Sent → Type 0
  Spaced [] = Unit {0}
  Spaced (s ∷ fs) =
      All (λ f. s.counts ≡ true → f.account ≡ s.account → s.done + 60 ≤ f.time) fs × Spaced fs

  After-weaken : (i t u : ℕ) (fs : List Sent) → t ≤ u → After i u fs → After i t fs
  After-weaken i t u [] le h = tt
  After-weaken i t u (f ∷ fs) le (p, h) = ((λ e. omega (arith, p e)), After-weaken i t u fs le h)

  last-set :
      (i j t : ℕ) (m : Asked)
      → last_asked j (set_asked i t m) ≡ (if i == j then some t else last_asked j m)
  unfolding last_asked set_asked
  last-set i j t [] = ground arith
  last-set i j t ((k, u) ∷ m) = ground (arith, last-set i j t m)

  -- What an attempt leaves: as it was where nothing is sent, and else what is noted of the answer.
  attempt_quiet :
      (c : Attempt) (m : Asked) → sends_of c m ≡ false → (attempt c m ≡ m) × ((tried c m).1 ≡ [])
  unfolding attempt tried sends_of try_rotate_1psidts
  attempt_quiet c m h =
      elim (Bool-cases (is_empty (cookie_value c.cookie (codes "__Secure-1PSID")))) [
        | inl y ↦ rw (y, attempt, tried, try_rotate_1psidts) (refl, refl)
        | inr n ↦
            let closed : allow_1psidts_rotate c.now c.account m ≡ false = ground arith in
            rw (n, closed, attempt, tried, try_rotate_1psidts) (refl, refl)
      ]

  attempt_loud :
      (c : Attempt) (m : Asked)
      → sends_of c m ≡ true
      → (attempt c m ≡ (if notes c then set_asked c.account (c.now + c.took) m else m))
        × ((tried c m).1 ≡ rotate_1psidts_body ∷ [])
  unfolding attempt tried sends_of try_rotate_1psidts rotate_1psidts note_1psidts_attempt notes
  attempt_loud c m h =
      let full : is_empty (cookie_value c.cookie (codes "__Secure-1PSID")) ≡ false = ground arith in
      let free : allow_1psidts_rotate c.now c.account m ≡ true = ground arith in
      rw (full, free, attempt, tried, try_rotate_1psidts) (refl, refl)

  -- What is known of an account after a request for it, or for another.
  after_sent :
      (i t : ℕ) (c : Attempt) (m : Asked)
      → sends_of c m ≡ true
      → last_asked i m ≡ some t
      → (c.account ≡ i → t + 60 ≤ c.now)
        × ((u : ℕ) × (t ≤ u) × (last_asked i (attempt c m) ≡ some u))
  unfolding sends_of allow_1psidts_rotate floor_passed
  after_sent i t c m h e =
      let free : floor_passed c.now (last_asked c.account m) ≡ true = ground arith in
      let late : c.account ≡ i → t + 60 ≤ c.now = λ at.
        (let known : last_asked c.account m ≡ some t = ap (λ k. last_asked k m) at ∙ e in
          let open_at : floor_passed c.now (some t) ≡ true =
            sym (ap (floor_passed c.now) known) ∙ free in
          ground arith) in
      (
        late,
        (elim (Bool-cases (notes c)) [
          | inr n ↦ (t, omega arith, ap (last_asked i) ((attempt_loud c m h).0 ∙ rw n refl) ∙ e)
          | inl y ↦
              let left =
                ap (last_asked i) ((attempt_loud c m h).0 ∙ rw y refl)
                ∙ last-set c.account i (c.now + c.took) m in
              elim (Bool-cases (c.account == i)) [
                | inl same ↦
                    let at : c.account ≡ i = ground arith in
                    (c.now + c.took, omega (arith, late at), left ∙ rw same refl)
                | inr other ↦ (t, omega arith, left ∙ rw other e)
              ]
        ]),
      )

  sends-After :
      (i t : ℕ) (cs : List Attempt) (m : Asked) → last_asked i m ≡ some t → After i t (sends cs m)
  unfolding sends sent_of
  sends-After i t [] m e = tt
  sends-After i t (c ∷ cs) m e = elim (Bool-cases (sends_of c m)) [
    | inr quiet ↦
        let (same, none_sent) = attempt_quiet c m quiet in
        subst (λ bodies. After i t (each bodies (sent_of c) (sends cs (attempt c m))))
          (sym none_sent) (sends-After i t cs (attempt c m) (ap (last_asked i) same ∙ e))
    | inl loud ↦
        let (late, (u, le, known)) = after_sent i t c m loud e in
        subst (λ bodies. After i t (each bodies (sent_of c) (sends cs (attempt c m))))
          (sym (attempt_loud c m loud).1)
          (late, After-weaken i t u _ le (sends-After i u cs (attempt c m) known))
  ]

  counts-notes : (c : Attempt) → (sent_of c).counts ≡ true → notes c ≡ true
  unfolding sent_of answer_of notes rotate_1psidts
  counts-notes c y = noted-counted c.cookie (answer_of c) y

  After-counts :
      (c : Attempt) (m : Asked) (cs : List Attempt)
      → sends_of c m ≡ true
      → (sent_of c).counts ≡ true
      → After c.account (c.now + c.took) (sends cs (attempt c m))
  After-counts c m cs h y = sends-After c.account (c.now + c.took) cs (attempt c m) (
      ap (last_asked c.account) ((attempt_loud c m h).0 ∙ rw (counts-notes c y) refl)
      ∙ last-set c.account c.account (c.now + c.took) m
      ∙ ground arith)

  All-given :
      (b : Bool) (P : Sent → Type 0) (fs : List Sent)
      → (b ≡ true → All P fs)
      → All (λ f. b ≡ true → P f) fs
  All-given b P [] h = tt
  All-given b P (f ∷ fs) h = ((λ y. (h y).0), All-given b P fs (λ y. (h y).1))

  -- For any attempts, each of which ends before the next begins, at any times and from any times of earlier
  -- ones: of two requests for a 1PSIDTS that are posted for one account, the later comes at least a
  -- minute after the answer to the earlier, where that has the status 200, 401, 403 or 429.
  pub sends-Spaced : (cs : List Attempt) (m : Asked) → Spaced (sends cs m)
  unfolding sends sent_of
  sends-Spaced [] m = tt
  sends-Spaced (c ∷ cs) m = elim (Bool-cases (sends_of c m)) [
    | inr quiet ↦
        subst (λ bodies. Spaced (each bodies (sent_of c) (sends cs (attempt c m))))
          (sym (attempt_quiet c m quiet).1) (sends-Spaced cs (attempt c m))
    | inl loud ↦
        subst (λ bodies. Spaced (each bodies (sent_of c) (sends cs (attempt c m))))
          (sym (attempt_loud c m loud).1)
          (
            All-given (sent_of c).counts (λ f. f.account ≡ c.account → c.now + c.took + 60 ≤ f.time)
                (sends cs (attempt c m)) (After-counts c m cs loud),
            sends-Spaced cs (attempt c m),
          )
  ]
