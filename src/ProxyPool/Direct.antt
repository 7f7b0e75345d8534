-- ===== src/ProxyPool/Direct.antt =====
-- When acquireSlot may use the direct exit, whose id is 0.
use gemini_web2api_go_browse.Prelude.{
  ℕ, ◌<◌, ◌≡◌, ◌≢◌, inl, inr, refl, ap, ◌∙◌, true, false, Option, none, some, arith, is_empty, All,
  Bool-cases, Option-cases, In, All-In,
}
use gemini_web2api_go_browse.RateLimit.{Slots, get_slot, try_slot_acquire}
use gemini_web2api_go_browse.RateLimit.Slots.{try_slot_acquire_other}
use gemini_web2api_go_browse.ProxyPool.{
  Proxy, Pool, Settings, proxy_usable, try_preferred, usable_pool, Picked, after_preferred,
  pick_proxy_preferring, ok, acquire_slot, acquire_fallback,
}
use gemini_web2api_go_browse.ProxyPool.Pick.{usable_In, preferred-In, pick_proxy_lem}
use gemini_web2api_go_browse.ProxyPool.Pick.Rounds.{round_robin_other}

fallback_hides :
    (c : Settings) (now : ℕ) (picked : Picked)
    → c.fallback_direct ≡ false
    → ((q : Proxy) → (acquire_fallback c now picked).0 ≡ ok q → picked.chosen ≡ some q)
      × ((acquire_fallback c now picked).1 ≡ picked.slots)
unfolding acquire_fallback
fallback_hides c now picked off = ((λ q. ground arith), ground arith)

module _ (c : Settings) (now prefer : ℕ) (p : Pool) (m : Slots) where
  module _ (j : ℕ) (apart : (q : Proxy) → In q (usable_pool c now p.cache) → q.id ≢ j) where
    try_preferred_other :
        (found : Option Proxy)
        → ((q : Proxy) → found ≡ some q → q.id ≢ j)
        → get_slot j (try_preferred c.limits now found m).1 ≡ get_slot j m
    unfolding try_preferred
    try_preferred_other none h = refl
    try_preferred_other (some q) h = elim (Option-cases (try_slot_acquire c.limits now q.id m).0) [
      | inl e ↦ rw (e, try_preferred) (try_slot_acquire_other c.limits now q.id j m (h q refl))
      | inr (r, e) ↦ rw (e, try_preferred) (try_slot_acquire_other c.limits now q.id j m (h q refl))
    ]

    after_preferred_other :
        (t : Option Proxy × Slots)
        → get_slot j t.1 ≡ get_slot j m
        → get_slot j (after_preferred c now (usable_pool c now p.cache) p.cursor t).slots
          ≡ get_slot j m
    unfolding after_preferred
    after_preferred_other (some q, m') e = e
    after_preferred_other (none, m') e =
        round_robin_other c.limits now (usable_pool c now p.cache) p.cursor j _ 0 m'
          (λ k q at. apart q (k, at))
        ∙ e

    -- A choice touches only the slots of usable proxies.
    pick_other : get_slot j (pick_proxy_preferring c now prefer p m).slots ≡ get_slot j m
    unfolding pick_proxy_preferring
    pick_other = elim (Bool-cases (is_empty (usable_pool c now p.cache))) [
      | inl e ↦ rw e refl
      | inr e ↦ rw e (
          after_preferred_other _
            (try_preferred_other _ (λ q found. apart q (preferred-In c now prefer p m q found))))
    ]

  -- With a proxy in the cache and fallback_direct off, whatever the slots: no call uses the direct
  -- exit or its slot, and what is acquired is a usable proxy of the cache.
  pub acquire_slot_hides :
      is_empty p.cache ≡ false
      → c.fallback_direct ≡ false
      → All (λ q. 0 < q.id) p.cache
      → let (r, m', p') = acquire_slot c now prefer p m in
        ((q : Proxy)
          → r ≡ ok q
          → (0 < q.id) × In q p.cache × (proxy_usable q now c.proxy_cooldown_min ≡ true))
        × (get_slot 0 m' ≡ get_slot 0 m)
  unfolding acquire_slot
  acquire_slot_hides some_proxy no_fallback pos =
      let picked = pick_proxy_preferring c now prefer p m in
      let (same_exit, same_slots) = fallback_hides c now picked no_fallback in
      rw some_proxy (
        (λ q h.
            let (at, good, room) = (pick_proxy_lem c now prefer p m).0 q (same_exit q h) in
            (All-In _ q p.cache at.0 pos at.1, at, good)),
        ap (get_slot 0) same_slots ∙ untouched,
      )
    where
      untouched : get_slot 0 (pick_proxy_preferring c now prefer p m).slots ≡ get_slot 0 m
      untouched = pick_other 0 (λ q at.
          let (k, e) = (usable_In c now p.cache q at).0 in
          let h : 0 < q.id = All-In (λ x. 0 < x.id) q p.cache k pos e in λ z. omega arith)
