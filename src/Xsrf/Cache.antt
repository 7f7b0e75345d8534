-- ===== src/Xsrf/Cache.antt =====
-- The cache of tokens: how long a token is used again, and for which account slot.
use gemini_web2api_go_browse.Prelude.{
  ℕ, ◌+◌, ◌<◌, ◌≡◌, ◌≢◌, ◌≤◌, ◌⊎◌, refl, sym, ap, subst, ◌∙◌, inl, inr, true, false, [], ◌∷◌, ◌++◌,
  Option, none, some, arith, ltb, lt→ltb, ltb→lt, if◌then◌else◌, length, drop, is_empty, Bool-cases,
  Option-cases, Text, codes, text_eq, text_eq_iff, text_eq_refl, text_eq_sym, drop-length-append,
  length-append, append_assoc,
}
use gemini_web2api_go_browse.AuthUser.{itoa}
use gemini_web2api_go_browse.AuthUser.Digits.{itoa_injective}
use gemini_web2api_go_browse.Xsrf.{
  XsrfEntry, XsrfCache, find_entry, set_entry, delete_entry, Result, success, failure, fresh,
  cookie_key, invalidate_xsrf, fetch_app_tokens, store_entry, cached_or_fetched, get_entry,
  token_of, get_xsrf, read_app, entry_of,
}

find_entry-set_entry :
    (k key : Text) (e : XsrfEntry) (m : XsrfCache)
    → find_entry k (set_entry key e m) ≡ (if text_eq key k then some e else find_entry k m)
unfolding find_entry set_entry
find_entry-set_entry k key e [] = refl
find_entry-set_entry k key e ((n, f) ∷ m) = elim (Bool-cases (text_eq n key)) [
  | inl y ↦
      let same : n ≡ key = (text_eq_iff n key).0 y in
      elim (Bool-cases (text_eq key k)) [
        | inl at ↦ rw y (rw same (rw at refl))
        | inr off ↦ rw y (rw same (rw off refl))
      ]
  | inr z ↦ elim (Bool-cases (text_eq n k)) [
    | inl at ↦
        let apart : text_eq key k ≡ false =
          text_eq_sym key k ∙ ap (λ t. text_eq t key) (sym ((text_eq_iff n k).0 at)) ∙ z in
        rw (z, apart) (rw at refl)
    | inr off ↦ rw z (rw off (find_entry-set_entry k key e m))
  ]
]

find_entry-delete_entry : (key : Text) (m : XsrfCache) → find_entry key (delete_entry key m) ≡ none
unfolding find_entry delete_entry
find_entry-delete_entry key [] = refl
find_entry-delete_entry key ((n, f) ∷ m) = elim (Bool-cases (text_eq n key)) [
  | inl y ↦ rw y (find_entry-delete_entry key m)
  | inr z ↦ rw z (rw z (find_entry-delete_entry key m))
]

failure_ne_success : {A : Type 0} {t : Text} {a : A} → failure t ≡ success a → ⊥
failure_ne_success e = cc

cut_two : (s t r : Text) → length t ≡ 2 → drop (length s + 2) (s ++ (t ++ r)) ≡ r
cut_two s t r two =
    let at : length s + 2 ≡ length (s ++ t) = omega (arith, two, length-append s t) in
    ap (λ k. drop k (s ++ (t ++ r))) at
    ∙ ap (drop (length (s ++ t))) (sym (append_assoc s t r))
    ∙ drop-length-append (s ++ t) r

store_entry-own : (key : Text) (r : Result XsrfEntry) (m : XsrfCache) → (store_entry key r m).0 ≡ r
unfolding store_entry
store_entry-own key (failure e) m = refl
store_entry-own key (success e) m = refl

behind :
    (sum : Text → Text)
    → ((c : Text) → length (sum c) ≡ 16)
    → (c : Text) (u : ℕ) → drop 18 (cookie_key sum c u) ≡ itoa u
unfolding cookie_key
behind sum long c u =
    ap (λ k. drop (k + 2) (sum c ++ (codes "|u" ++ itoa u))) (sym (long c))
    ∙ cut_two (sum c) (codes "|u") (itoa u) refl

-- The keys of two account slots differ, whatever the cookies.
cookie_key-slots :
    (sum : Text → Text)
    → ((c : Text) → length (sum c) ≡ 16)
    → (c c' : Text) (u u' : ℕ) → u ≢ u'
    → text_eq (cookie_key sum c u) (cookie_key sum c' u') ≡ false
unfolding cookie_key
cookie_key-slots sum long c c' u u' n =
    elim (Bool-cases (text_eq (cookie_key sum c u) (cookie_key sum c' u'))) [
      | inr z ↦ z
      | inl y ↦
          let same = (text_eq_iff (cookie_key sum c u) (cookie_key sum c' u')).0 y in
          let cut = λ (d : Text) (v : ℕ). behind sum long d v in
          absurd (n (itoa_injective u u' (sym (cut c u) ∙ ap (drop 18) same ∙ cut c' u')))
    ]

abbrev fetched_of : ℕ → Result XsrfEntry → ℕ
fetched_of d (failure e) = d
fetched_of d (success e) = e.fetched

-- An entry with a token stands under a key for a while: one that stood there before, or that was fetched now.
abbrev pub Held : Text → Text → ℕ → XsrfCache → XsrfCache → Type 0
Held key k now m m' =
    (e : XsrfEntry) × (find_entry key m' ≡ some e)
    × (e.token ≡ k)
    × (now < e.fetched + 1200)
    × ((find_entry key m ≡ some e) ⊎ (e.fetched ≡ now))

-- What a call that gives a token leaves: the token under its key, and every other key as it was.
abbrev Left : Text → Text → ℕ → XsrfCache → Result Text × XsrfCache → Type 0
Left key k now m out =
    out.0 ≡ success k
    → Held key k now m out.1
      × ((other : Text) → text_eq key other ≡ false → find_entry other out.1 ≡ find_entry other m)

success_injective : {A : Type 0} {a b : A} → success a ≡ success b → a ≡ b
success_injective e = cc

store_entry-Left :
    (key k : Text) (now : ℕ) (got : Result XsrfEntry) (m : XsrfCache)
    → fetched_of now got ≡ now
    → Left key k now m (token_of got, (store_entry key got m).1)
unfolding store_entry token_of
store_entry-Left key k now (failure e) m at h = absurd (failure_ne_success h)
store_entry-Left key k now (success e) m at h = (
  (
    e,
    find_entry-set_entry key key e m ∙ rw (text_eq_refl key) refl,
    success_injective h,
    omega (arith, at),
    inr at,
  ),
  (λ other apart. find_entry-set_entry other key e m ∙ rw apart refl),
)

module _ (sum : Text → Text) (find_token find_push find_pctx : Text → Option Text) where
  -- An entry that is younger than the limit is what is got, whatever the page.
  get-fresh :
      (page : Text → Text → ℕ → Result Text) (now : ℕ) (c proxy : Text) (u : ℕ) (m : XsrfCache)
      (e : XsrfEntry)
      → is_empty c ≡ false
      → find_entry (cookie_key sum c u) m ≡ some e
      → now < e.fetched + 1200
      → get_xsrf sum find_token find_push find_pctx page now c proxy u m ≡ (success e.token, m)
  unfolding get_xsrf get_entry fresh cached_or_fetched
  get-fresh page now c proxy u m e full at young =
      let ok : ltb now (e.fetched + 1200) ≡ true = lt→ltb now (e.fetched + 1200) young in
      rw (full, at) (rw ok refl)

  -- Without such an entry, the page is asked, and what it gives is kept.
  get-stale :
      (page : Text → Text → ℕ → Result Text) (now : ℕ) (c proxy : Text) (u : ℕ) (m : XsrfCache)
      → is_empty c ≡ false
      → fresh now (find_entry (cookie_key sum c u) m) ≡ none
      → let got = fetch_app_tokens sum find_token find_push find_pctx page now c proxy u in
        get_xsrf sum find_token find_push find_pctx page now c proxy u m
        ≡ (token_of got, (store_entry (cookie_key sum c u) got m).1)
  unfolding get_xsrf get_entry cached_or_fetched
  get-stale page now c proxy u m full old =
      let got = fetch_app_tokens sum find_token find_push find_pctx page now c proxy u in
      let key = cookie_key sum c u in
      rw (full, old) (ap (λ r. (token_of r, (store_entry key got m).1)) (store_entry-own key got m))

  entry_of-fetched :
      (now : ℕ) (c body : Text) (o : Option Text)
      → fetched_of now (entry_of sum find_token find_push find_pctx now c body o) ≡ now
  unfolding entry_of
  entry_of-fetched now c body (some t) = refl
  entry_of-fetched now c body none = elim (Bool-cases (is_empty c)) [
    | inl y ↦ rw y refl
    | inr n ↦ rw n refl
  ]

  read_app-fetched :
      (now : ℕ) (c : Text) (r : Result Text)
      → fetched_of now (read_app sum find_token find_push find_pctx now c r) ≡ now
  unfolding read_app
  read_app-fetched now c (failure e) = refl
  read_app-fetched now c (success body) = entry_of-fetched now c body (find_token body)

  fetched_now :
      (page : Text → Text → ℕ → Result Text) (now : ℕ) (c proxy : Text) (u : ℕ) (e : XsrfEntry)
      → fetch_app_tokens sum find_token find_push find_pctx page now c proxy u ≡ success e
      → e.fetched ≡ now
  unfolding fetch_app_tokens
  fetched_now page now c proxy u e h =
      ap (fetched_of now) (sym h) ∙ read_app-fetched now c (page c proxy u)

  stale_leaves :
      (page : Text → Text → ℕ → Result Text) (now : ℕ) (c proxy k : Text) (u : ℕ) (m : XsrfCache)
      → is_empty c ≡ false
      → fresh now (find_entry (cookie_key sum c u) m) ≡ none
      → Left
          (cookie_key sum c u)
          k
          now
          m
          (get_xsrf sum find_token find_push find_pctx page now c proxy u m)
  unfolding fetch_app_tokens
  stale_leaves page now c proxy k u m full old =
      subst (Left (cookie_key sum c u) k now m) (sym (get-stale page now c proxy u m full old)) (
        store_entry-Left (cookie_key sum c u) k now
          (fetch_app_tokens sum find_token find_push find_pctx page now c proxy u) m
          (read_app-fetched now c (page c proxy u)))

  get_leaves :
      (page : Text → Text → ℕ → Result Text) (now : ℕ) (c proxy k : Text) (u : ℕ) (m : XsrfCache)
      → is_empty c ≡ false
      → Left
          (cookie_key sum c u)
          k
          now
          m
          (get_xsrf sum find_token find_push find_pctx page now c proxy u m)
  unfolding fresh
  get_leaves page now c proxy k u m full =
      let key = cookie_key sum c u in
      elim (Option-cases (find_entry key m)) [
        | inl missing ↦ stale_leaves page now c proxy k u m full (rw missing refl)
        | inr (e, at) ↦ elim (Bool-cases (ltb now (e.fetched + 1200))) [
          | inr old ↦ stale_leaves page now c proxy k u m full (rw at (rw old refl))
          | inl young ↦
              let lt = ltb→lt now (e.fetched + 1200) young in
              subst (Left key k now m) (sym (get-fresh page now c proxy u m e full at lt))
                (λ h. ((e, at, success_injective h, lt, inl at), (λ other apart. refl)))
        ]
      ]

  -- Where the digest of a cookie always has 16 bytes, once a call for a cookie that is not empty has given
  -- a token: whatever the page shows then, a call for the same cookie and account slot gives the same
  -- token without asking it while the entry that the cache has for them, one from before or fetched at the
  -- call, is younger than 20 minutes, and from then on what the page shows; nothing is kept differently for
  -- any other slot of any cookie; and once the entry is dropped, the next call gives what the page shows.
  pub get_xsrf-again :
      (page : Text → Text → ℕ → Result Text) (now : ℕ) (c proxy k : Text) (u : ℕ) (m : XsrfCache)
      → ((c : Text) → length (sum c) ≡ 16)
      → is_empty c ≡ false
      → (get_xsrf sum find_token find_push find_pctx page now c proxy u m).0 ≡ success k
      → let m' = (get_xsrf sum find_token find_push find_pctx page now c proxy u m).1 in
        ((e : XsrfEntry) × (find_entry (cookie_key sum c u) m' ≡ some e)
          × (now < e.fetched + 1200)
          × ((find_entry (cookie_key sum c u) m ≡ some e) ⊎ (e.fetched ≡ now))
          × ((page' : Text → Text → ℕ → Result Text) (later : ℕ) (proxy' : Text)
              → later < e.fetched + 1200
              → get_xsrf sum find_token find_push find_pctx page' later c proxy' u m'
                ≡ (success k, m'))
          × ((page' : Text → Text → ℕ → Result Text) (later : ℕ) (proxy' : Text)
              → e.fetched + 1200 ≤ later
              → (get_xsrf sum find_token find_push find_pctx page' later c proxy' u m').0
                ≡ token_of
                    (fetch_app_tokens sum find_token find_push find_pctx page' later c proxy' u)))
        × ((c' : Text) (u' : ℕ)
            → u ≢ u'
            → find_entry (cookie_key sum c' u') m' ≡ find_entry (cookie_key sum c' u') m)
        × ((page' : Text → Text → ℕ → Result Text) (later : ℕ) (proxy' : Text)
            → (get_xsrf sum find_token find_push find_pctx page' later c proxy' u
                (invalidate_xsrf sum c u m')).0
              ≡ token_of
                  (fetch_app_tokens sum find_token find_push find_pctx page' later c proxy' u))
  unfolding fresh invalidate_xsrf
  get_xsrf-again page now c proxy k u m long full h =
      let key = cookie_key sum c u in
      let ((e, at, is_k, lt, origin), others) = get_leaves page now c proxy k u m full h in
      let m' = (get_xsrf sum find_token find_push find_pctx page now c proxy u m).1 in
      (
        (
          e,
          at,
          lt,
          origin,
          (λ page' later proxy' young.
              get-fresh page' later c proxy' u m' e full at young ∙ ap (λ t. (success t, m')) is_k),
          (λ page' later proxy' old.
              let closed : ltb later (e.fetched + 1200) ≡ false = ground (arith, old) in
              let stale : fresh later (find_entry key m') ≡ none = rw at (rw closed refl) in
              ap (λ out. out.0) (get-stale page' later c proxy' u m' full stale)),
        ),
        (λ c' u' n. others (cookie_key sum c' u') (cookie_key-slots sum long c c' u u' n)),
        (λ page' later proxy'.
            let gone : fresh later (find_entry key (delete_entry key m')) ≡ none =
              rw (find_entry-delete_entry key m') refl in
            rw full (
              ap (λ out. out.0)
                (get-stale page' later c proxy' u (delete_entry key m') full gone))),
      )
