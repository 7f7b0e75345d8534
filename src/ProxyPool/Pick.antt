-- ===== src/ProxyPool/Pick.antt =====
-- The choice of an exit: what it finds, when it finds nothing, and that it does not leak.
pub mod Rounds
use gemini_web2api_go_browse.Prelude.{
  ℕ, zero, suc, ◌+◌, ◌≤◌, ◌<◌, ◌≡◌, ◌≢◌, ◌⊎◌, inl, inr, refl, sym, ap, ◌∙◌, subst, ◌%◌, Bool, true,
  false, List, [], ◌∷◌, Option, none, some, arith, ltb, ◌==◌, get_elem?, length, keep, is_empty,
  All, Bool-cases, Option-cases, if◌then◌else◌, In, In-keep, keep-In, In-lt, In-cons,
  some_injective, some_ne_none, All-In,
}
use gemini_web2api_go_browse.RateLimit.{Limits, Slots, get_slot, try_slot_acquire, Reason, rph}
use gemini_web2api_go_browse.RateLimit.Slots.{try_slot_acquire_other}
use gemini_web2api_go_browse.RateLimit.Verdict.{verdict, verdict-refused, try_slot_acquire-verdict}
use gemini_web2api_go_browse.ProxyPool.{
  Proxy, Pool, Settings, proxy_usable, find_proxy, round_robin, try_preferred, preferred_in,
  usable_pool, Picked, after_preferred, pick_proxy_preferring, Acquired, ok, err, RateLimitError,
  all_proxies, acquire_slot, acquire_fallback, acquire_direct, no_proxy,
}
use Rounds.{offset, round_robin_sound, round_robin_complete, round_robin_other}

pub find-In :
    (i : ℕ) (ps : List Proxy) (p : Proxy) → find_proxy i ps ≡ some p → In p ps × (p.id ≡ i)
unfolding find_proxy
find-In i [] p e = absurd (cc)
find-In i (q ∷ ps) p e = elim (Bool-cases (q.id == i)) [
  | inl y ↦ let same : q ≡ p = some_injective (rw y at e) in ((0, ap some same), ground arith)
  | inr n ↦ let (at, own) = find-In i ps p (rw n at e) in (In-cons p q ps at, own)
]

-- The proxies of the usable pool.
pub usable_In :
    (c : Settings) (now : ℕ) (ps : List Proxy) (p : Proxy)
    → In p (usable_pool c now ps)
    → In p ps × (proxy_usable p now c.proxy_cooldown_min ≡ true)
usable_In c now ps p (k, e) = In-keep (λ q. proxy_usable q now c.proxy_cooldown_min) p ps k e

module _ (c : Settings) (now : ℕ) where
  -- The preferred exit, tried first: granted, absent, or refused with the verdicts as they were.
  try_preferred_cases :
      (found : Option Proxy) (m : Slots)
      → ((p : Proxy) × (found ≡ some p)
          × (verdict c.limits now m p.id ≡ none)
          × (try_preferred c.limits now found m
              ≡ (some p, (try_slot_acquire c.limits now p.id m).1)))
        ⊎ (((try_preferred c.limits now found m).0 ≡ none)
            × ((j : ℕ)
                → verdict c.limits now (try_preferred c.limits now found m).1 j
                  ≡ verdict c.limits now m j)
            × ((p : Proxy) → found ≡ some p → verdict c.limits now m p.id ≢ none))
  unfolding try_preferred
  try_preferred_cases none m = inr (refl, (λ j. refl), (λ p e. cc))
  try_preferred_cases (some p) m = elim (Option-cases (verdict c.limits now m p.id)) [
    | inl granted ↦ inl (
      p,
      refl,
      granted,
      rw (try_slot_acquire-verdict c.limits now p.id m, try_preferred)
          (rw (granted, try_preferred)),
    )
    | inr (r, refused) ↦
        let full : verdict c.limits now m p.id ≢ none = λ e. some_ne_none (sym refused ∙ e) in
        let eq : try_preferred c.limits now (some p) m
            ≡ (none, (try_slot_acquire c.limits now p.id m).1) =
          rw (try_slot_acquire-verdict c.limits now p.id m, try_preferred)
            (rw (refused, try_preferred)) in
        inr (
          ap (λ t. t.0) eq,
          (λ j.
              ap (λ t. verdict c.limits now t.1 j) eq ∙ verdict-refused c.limits now p.id j m full),
          (λ q e. subst (λ x. verdict c.limits now m x.id ≢ none) (some_injective e) full),
        )
  ]

module _ (c : Settings) (now prefer : ℕ) (p : Pool) (m : Slots) where
  abbrev pub usable : List Proxy
  usable = usable_pool c now p.cache

  -- The three ways of a choice, each with what decides it.
  data Way : Picked → Type 0 where
    empty : (r : Picked) → usable ≡ [] → r.chosen ≡ none → Way r
    preferred :
        (r : Picked) (q : Proxy)
        → preferred_in prefer usable ≡ some q
        → verdict c.limits now m q.id ≡ none
        → r.chosen ≡ some q
        → Way r
    rounds :
        (r : Picked) (m' : Slots)
        → ((j : ℕ) → verdict c.limits now m' j ≡ verdict c.limits now m j)
        → ((q : Proxy) → preferred_in prefer usable ≡ some q → verdict c.limits now m q.id ≢ none)
        → r.chosen ≡ (round_robin c.limits now usable p.cursor (length usable) 0 m').0
        → Way r

  after_preferred-Way :
      (t : Option Proxy × Slots)
      → ((j : ℕ) → verdict c.limits now t.1 j ≡ verdict c.limits now m j)
      → ((q : Proxy) → preferred_in prefer usable ≡ some q → verdict c.limits now m q.id ≢ none)
      → t.0 ≡ none
      → Way (after_preferred c now usable p.cursor t)
  unfolding after_preferred
  after_preferred-Way (none, m') same full e = rounds _ m' same full refl
  after_preferred-Way (some q, m') same full e = absurd (some_ne_none e)

  pick-Way : Way (pick_proxy_preferring c now prefer p m)
  unfolding pick_proxy_preferring after_preferred
  pick-Way = elim (Bool-cases (is_empty usable)) [
    | inl e ↦ rw e (empty _ (no_elements usable e) refl)
    | inr e ↦ rw e (elim (try_preferred_cases c now (preferred_in prefer usable) m) [
      | inl (q, found, granted, eq) ↦
          preferred _ q found granted
            (ap (λ t. (after_preferred c now usable p.cursor t).chosen) eq)
      | inr (none_found, same, full) ↦ after_preferred-Way _ same full none_found
    ])
  ]
    where
      no_elements : (xs : List Proxy) → is_empty xs ≡ true → xs ≡ []
      no_elements [] h = refl
      no_elements (x ∷ xs) h = cc

  pub preferred-In : (q : Proxy) → preferred_in prefer usable ≡ some q → In q usable
  preferred-In q e = elim (Bool-cases (ltb 0 prefer)) [
    | inl y ↦ (find-In prefer usable q (rw y at e)).0
    | inr n ↦ absurd (some_ne_none (sym (rw n at e)))
  ]

  sound :
      (r : Picked)
      → Way r
      → (q : Proxy) → r.chosen ≡ some q
      → In q usable × (verdict c.limits now m q.id ≡ none)
  sound r (empty _ e none_found) q h = absurd (some_ne_none (sym h ∙ none_found))
  sound r (preferred _ s found granted eq) q h =
      let same : s ≡ q = some_injective (sym eq ∙ h) in
      subst (λ x. In x usable × (verdict c.limits now m x.id ≡ none)) same
        (preferred-In s found, granted)
  sound r (rounds _ m' same full eq) q h =
      let (room, k, at) =
        round_robin_sound c.limits now usable p.cursor (length usable) 0 m' q (sym eq ∙ h) in
      ((k, at), sym (same q.id) ∙ room)

  complete :
      (r : Picked)
      → Way r
      → r.chosen ≡ none
      → (q : Proxy) → In q usable
      → verdict c.limits now m q.id ≢ none
  complete r (empty _ e none_found) h q (k, at) = absurd (some_ne_none (sym (rw e at at)))
  complete r (preferred _ s found granted eq) h q at = absurd (some_ne_none (sym eq ∙ h))
  complete r (rounds _ m' same full eq) h q (k, at) =
      let lt = In-lt q usable k at in
      let (i, less, hit) = offset p.cursor (length usable) k lt in
      λ e.
        round_robin_complete c.limits now usable p.cursor (length usable) 0 m' (sym eq ∙ h)
          (omega (arith, lt)) i q less
          (ap (λ d. get_elem? usable d)
              (ap (λ d. (p.cursor + d) % length usable) (omega arith) ∙ hit)
            ∙ at)
          (same q.id ∙ e)

  -- Whatever the cursor and the preference: the proxy that is picked stands in the cache, is usable
  -- and its slot has room; and when none is picked, no usable proxy of the cache has room.
  pub pick_proxy_lem :
      ((q : Proxy)
        → (pick_proxy_preferring c now prefer p m).chosen ≡ some q
        → In q p.cache
          × (proxy_usable q now c.proxy_cooldown_min ≡ true)
          × (verdict c.limits now m q.id ≡ none))
      × ((pick_proxy_preferring c now prefer p m).chosen ≡ none
          → (q : Proxy) → In q p.cache
          → proxy_usable q now c.proxy_cooldown_min ≡ true
          → verdict c.limits now m q.id ≢ none)
  pick_proxy_lem = (
    (λ q h.
        let (at, room) = sound _ pick-Way q h in
        let (stands, good) = usable_In c now p.cache q at in (stands, good, room)),
    (λ h q (k, at) good.
        complete _ pick-Way h q
          (keep-In (λ x. proxy_usable x now c.proxy_cooldown_min) q p.cache k at good)),
  )

  -- An account's own exit is picked whenever it is usable and its slot has room.
  pub pick_preferred :
      (q : Proxy)
      → 0 < prefer
      → find_proxy prefer (usable_pool c now p.cache) ≡ some q
      → verdict c.limits now m q.id ≡ none
      → (pick_proxy_preferring c now prefer p m).chosen ≡ some q
  pick_preferred q pos found room = go _ pick-Way
    where
      wanted : preferred_in prefer usable ≡ some q
      wanted = ground (arith, found)

      go : (r : Picked) → Way r → r.chosen ≡ some q
      go r (empty _ e none_found) =
          let (at, own) = find-In prefer usable q found in
          absurd (some_ne_none (sym (rw e at at.1)))
      go r (preferred _ s by granted eq) = eq ∙ sym by ∙ wanted
      go r (rounds _ m' same full eq) = absurd (full q wanted room)
