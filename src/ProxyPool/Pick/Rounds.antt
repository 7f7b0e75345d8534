-- ===== src/ProxyPool/Pick/Rounds.antt =====
-- The round robin tries every proxy of the pool.
use native.Mathlib.Nat.{mod-lt, mod-eq_of_lt, mod-add-mod, add-mod_right}
use gemini_web2api_go_browse.Prelude.{
  ℕ, zero, suc, ◌+◌, ◌-◌, ◌%◌, ◌<◌, ◌≡◌, ◌≢◌, refl, sym, leb, ap, ◌∙◌, List, none, some, arith,
  Bool-cases, inl, inr, ◌⊎◌, length, get_elem?, Option-cases, get_elem?-some, some_injective,
  some_ne_none,
}
use gemini_web2api_go_browse.RateLimit.{Limits, Slots, get_slot, try_slot_acquire}
use gemini_web2api_go_browse.ProxyPool.{Proxy, round_robin}
use gemini_web2api_go_browse.RateLimit.Slots.{try_slot_acquire_other}
use gemini_web2api_go_browse.RateLimit.Verdict.{verdict, verdict-refused, try_slot_acquire-verdict}

-- Some round stands at the index `k`.
pub offset : (start len k : ℕ) → k < len → (i : ℕ) × (i < len) × ((start + i) % len ≡ k)
offset start len k h = elim (Bool-cases (leb (start % len) k)) [
  | inl before ↦ (
    k - start % len,
    omega arith,
    sym (mod-add-mod start len (k - start % len))
        ∙ ap (λ n. n % len) (ground (arith))
        ∙ mod-eq_of_lt h,
  )
  | inr after ↦ (
    k + len - start % len,
    ground (arith, below),
    sym (mod-add-mod start len (k + len - start % len))
        ∙ ap (λ n. n % len) (ground (arith, below))
        ∙ add-mod_right k len
        ∙ mod-eq_of_lt h,
  )
]
  where
    below : start % len < len
    below = mod-lt start (omega arith)

module _ (l : Limits) (now : ℕ) (pool : List Proxy) (start : ℕ) where
  -- One round: a grant ends the loop, and a refusal goes on from slots that say the same.
  round :
      (n i : ℕ) (m : Slots) (p : Proxy)
      → get_elem? pool ((start + i) % length pool) ≡ some p
      → ((verdict l now m p.id ≡ none)
          × (round_robin l now pool start (suc n) i m
              ≡ (some p, (try_slot_acquire l now p.id m).1)))
        ⊎ ((verdict l now m p.id ≢ none)
            × (round_robin l now pool start (suc n) i m
                ≡ round_robin l now pool start n (i + 1) (try_slot_acquire l now p.id m).1))
  unfolding round_robin
  round n i m p e = elim (Option-cases (verdict l now m p.id)) [
    | inl granted ↦
        inl (granted, rw (e, round_robin) (rw (try_slot_acquire-verdict l now p.id m, granted)))
    | inr (r, refused) ↦
        inr
          (ground arith, rw (e, round_robin) (rw (try_slot_acquire-verdict l now p.id m, refused)))
  ]

  no_round :
      (n i : ℕ) (m : Slots)
      → get_elem? pool ((start + i) % length pool) ≡ none
      → round_robin l now pool start (suc n) i m ≡ (none, m)
  unfolding round_robin
  no_round n i m e = rw (e, round_robin)

  -- The proxy that the loop finds is in the pool, and its slot had room when the loop began.
  pub round_robin_sound :
      (n i : ℕ) (m : Slots) (p : Proxy)
      → (round_robin l now pool start n i m).0 ≡ some p
      → (verdict l now m p.id ≡ none) × (k : ℕ) × (get_elem? pool k ≡ some p)
  round_robin_sound zero i m p h = unfold round_robin in cc
  round_robin_sound (suc n) i m p h =
      elim (Option-cases (get_elem? pool ((start + i) % length pool))) [
        | inl e ↦ absurd (no_entry e)
        | inr (q, e) ↦ elim (round n i m q e) [
          | inl (granted, eq) ↦ found q e granted (some_injective (sym (ap (λ r. r.0) eq) ∙ h))
          | inr (refused, eq) ↦
              let m' = (try_slot_acquire l now q.id m).1 in
              let (room, k, at) = round_robin_sound n (i + 1) m' p (sym (ap (λ r. r.0) eq) ∙ h) in
              (rw (verdict-refused l now q.id p.id m refused) at room, k, at)
        ]
      ]
    where
      no_entry : get_elem? pool ((start + i) % length pool) ≡ none → ⊥
      no_entry e = some_ne_none (sym h ∙ ap (λ t. t.0) (no_round n i m e))

      found :
          (q : Proxy)
          → get_elem? pool ((start + i) % length pool) ≡ some q
          → verdict l now m q.id ≡ none
          → q ≡ p
          → (verdict l now m p.id ≡ none) × (k : ℕ) × (get_elem? pool k ≡ some p)
      found q e g same = (rw same at g, (start + i) % length pool, e ∙ ap some same)

  -- Where it finds none, every proxy that it came by was refused, and had no room when it began.
  pub round_robin_complete :
      (n i : ℕ) (m : Slots)
      → (round_robin l now pool start n i m).0 ≡ none
      → 0 < length pool
      → (d : ℕ) (p : Proxy) → d < n
      → get_elem? pool ((start + (i + d)) % length pool) ≡ some p
      → verdict l now m p.id ≢ none
  round_robin_complete zero i m h pos d p lt e = absurd (omega arith)
  round_robin_complete (suc n) i m h pos d p lt e =
      let (q, eq) = get_elem?-some pool ((start + i) % length pool) (mod-lt (start + i) pos) in
      elim (round n i m q eq) [
        | inl (granted, r) ↦ absurd (some_ne_none (sym (ap (λ t. t.0) r) ∙ h))
        | inr (refused, r) ↦ later q eq refused d lt e (
            round_robin_complete n (i + 1) (try_slot_acquire l now q.id m).1
              (sym (ap (λ t. t.0) r) ∙ h) pos)
      ]
    where
      later :
          (q : Proxy)
          → get_elem? pool ((start + i) % length pool) ≡ some q
          → verdict l now m q.id ≢ none
          → (d : ℕ) → d < suc n
          → get_elem? pool ((start + (i + d)) % length pool) ≡ some p
          → ((c : ℕ) (r : Proxy)
              → c < n
              → get_elem? pool ((start + (i + 1 + c)) % length pool) ≡ some r
              → verdict l now (try_slot_acquire l now q.id m).1 r.id ≢ none)
          → verdict l now m p.id ≢ none
      later q eq refused zero lt e rest =
          let same : q ≡ p =
            some_injective
              (sym eq ∙ ap (λ c. get_elem? pool ((start + c) % length pool)) (omega arith) ∙ e) in
          rw same at refused
      later q eq refused (suc c) lt e rest = rw (verdict-refused l now q.id p.id m refused) at (
          rest c p (omega arith)
            (ap (λ b. get_elem? pool ((start + b) % length pool)) (omega arith) ∙ e))

  -- Exits outside the pool keep their slots.
  pub round_robin_other :
      (j n i : ℕ) (m : Slots)
      → ((k : ℕ) (p : Proxy) → get_elem? pool k ≡ some p → p.id ≢ j)
      → get_slot j (round_robin l now pool start n i m).1 ≡ get_slot j m
  round_robin_other j zero i m h = unfold round_robin in refl
  round_robin_other j (suc n) i m h =
      elim (Option-cases (get_elem? pool ((start + i) % length pool))) [
        | inl e ↦ ap (λ t. get_slot j t.1) (no_round n i m e)
        | inr (q, e) ↦
            let other = try_slot_acquire_other l now q.id j m (h _ q e) in
            elim (round n i m q e) [
              | inl (granted, r) ↦ ap (λ t. get_slot j t.1) r ∙ other
              | inr (refused, r) ↦
                  ap (λ t. get_slot j t.1) r
                  ∙ round_robin_other j n (i + 1) (try_slot_acquire l now q.id m).1 h
                  ∙ other
            ]
      ]
