-- ===== src/ProxyPool/Held.antt =====
-- acquireSlot: how many calls it puts in flight, and where.
use gemini_web2api_go_browse.Prelude.{
  ℕ, zero, suc, ◌+◌, ◌%◌, ◌≡◌, ap, ◌∙◌, inl, inr, List, Option, none, some, arith, ◌==◌,
  if◌then◌else◌, length, get_elem?, is_empty, Bool-cases, Option-cases,
}
use gemini_web2api_go_browse.RateLimit.{Limits, Reason, Slots, get_slot, try_slot_acquire}
use gemini_web2api_go_browse.RateLimit.Slots.{taken, try_slot_acquire-inflight}
use gemini_web2api_go_browse.ProxyPool.{
  Proxy, Pool, Settings, Picked, Acquired, ok, err, round_robin, try_preferred, preferred_in,
  usable_pool, after_preferred, pick_proxy_preferring, acquire_direct, acquire_fallback,
  acquire_slot,
}

-- The calls that a choice puts in flight on an exit: one, on the exit that was chosen.
abbrev pub held_by : Option Proxy → ℕ → ℕ
held_by none j = 0
held_by (some p) j = if p.id == j then 1 else 0

abbrev pub held : Acquired → ℕ → ℕ
held (ok p) j = held_by (some p) j
held (err e) j = 0

abbrev pub Adds : ℕ → ℕ → Slots → Slots → Type 0
Adds j n m m' = (get_slot j m').inflight ≡ (get_slot j m).inflight + n

try_granted :
    (l : Limits) (now i j : ℕ) (m : Slots)
    → (try_slot_acquire l now i m).0 ≡ none
    → Adds j (if i == j then 1 else 0) m (try_slot_acquire l now i m).1
try_granted l now i j m e =
    try_slot_acquire-inflight l now i j m
    ∙ ap (λ r. (get_slot j m).inflight + (if i == j then taken r else 0)) e

try_refused :
    (l : Limits) (now i j : ℕ) (m : Slots) (r : Reason)
    → (try_slot_acquire l now i m).0 ≡ some r
    → Adds j 0 m (try_slot_acquire l now i m).1
try_refused l now i j m r e =
    let same =
      try_slot_acquire-inflight l now i j m
      ∙ ap (λ r. (get_slot j m).inflight + (if i == j then taken r else 0)) e in
    ground (arith, same)

Adds-trans : (j n : ℕ) (a b c : Slots) → Adds j 0 a b → Adds j n b c → Adds j n a c
Adds-trans j n a b c x y = omega (arith, x, y)

Adds-refl : (j : ℕ) (m : Slots) → Adds j 0 m m
Adds-refl j m = omega arith

round_robin-Adds :
    (l : Limits) (now : ℕ) (pool : List Proxy) (start n i j : ℕ) (m : Slots)
    → let (found, m') = round_robin l now pool start n i m in Adds j (held_by found j) m m'
unfolding round_robin
round_robin-Adds l now pool start zero i j m = Adds-refl j m
round_robin-Adds l now pool start (suc n) i j m =
    elim (Option-cases (get_elem? pool ((start + i) % length pool))) [
      | inl e ↦ rw (e, round_robin) (Adds-refl j m)
      | inr (p, e) ↦
          let m' = (try_slot_acquire l now p.id m).1 in
          elim (Option-cases (try_slot_acquire l now p.id m).0) [
            | inl granted ↦ rw (e, round_robin) (rw granted (try_granted l now p.id j m granted))
            | inr (r, refused) ↦
                rw (e, round_robin)
                  (rw refused (
                    Adds-trans j (held_by (round_robin l now pool start n (i + 1) m').0 j) m m'
                      (round_robin l now pool start n (i + 1) m').1
                      (try_refused l now p.id j m r refused)
                      (round_robin-Adds l now pool start n (i + 1) j m')))
          ]
    ]

try_preferred-Adds :
    (l : Limits) (now j : ℕ) (o : Option Proxy) (m : Slots)
    → let (found, m') = try_preferred l now o m in Adds j (held_by found j) m m'
unfolding try_preferred
try_preferred-Adds l now j none m = Adds-refl j m
try_preferred-Adds l now j (some p) m = elim (Option-cases (try_slot_acquire l now p.id m).0) [
  | inl granted ↦ rw (granted, try_preferred) (try_granted l now p.id j m granted)
  | inr (r, refused) ↦ rw (refused, try_preferred) (try_refused l now p.id j m r refused)
]

after_preferred-Adds :
    (c : Settings) (now : ℕ) (pool : List Proxy) (cursor j : ℕ) (o : Option Proxy) (m m1 : Slots)
    → Adds j (held_by o j) m m1
    → let x = after_preferred c now pool cursor (o, m1) in Adds j (held_by x.chosen j) m x.slots
unfolding after_preferred
after_preferred-Adds c now pool cursor j (some p) m m1 h = h
after_preferred-Adds c now pool cursor j none m m1 h =
    let (found, m') = round_robin c.limits now pool cursor (length pool) 0 m1 in
    Adds-trans j (held_by found j) m m1 m' h
      (round_robin-Adds c.limits now pool cursor (length pool) 0 j m1)

pick-Adds :
    (c : Settings) (now prefer j : ℕ) (p : Pool) (m : Slots)
    → let x = pick_proxy_preferring c now prefer p m in Adds j (held_by x.chosen j) m x.slots
unfolding pick_proxy_preferring
pick-Adds c now prefer j p m =
    let pool = usable_pool c now p.cache in
    elim (Bool-cases (is_empty pool)) [
      | inl y ↦ rw y (Adds-refl j m)
      | inr n ↦
          let (o, m1) = try_preferred c.limits now (preferred_in prefer pool) m in
          rw n (
            after_preferred-Adds c now pool p.cursor j o m m1
              (try_preferred-Adds c.limits now j (preferred_in prefer pool) m))
    ]

direct-Adds :
    (c : Settings) (now j : ℕ) (m : Slots)
    → let (r, m') = acquire_direct c now m in Adds j (held r j) m m'
unfolding acquire_direct
direct-Adds c now j m = elim (Option-cases (try_slot_acquire c.limits now 0 m).0) [
  | inl granted ↦ rw (granted, held) (try_granted c.limits now 0 j m granted)
  | inr (r, refused) ↦ rw (refused, held) (try_refused c.limits now 0 j m r refused)
]

fallback-Adds :
    (c : Settings) (now j : ℕ) (m : Slots) (x : Picked)
    → Adds j (held_by x.chosen j) m x.slots
    → let (r, m') = acquire_fallback c now x in Adds j (held r j) m m'
unfolding acquire_fallback
fallback-Adds c now j m x h = elim (Option-cases x.chosen) [
  | inr (p, e) ↦ rw e (rw e at h)
  | inl e ↦ elim (Bool-cases c.fallback_direct) [
    | inl y ↦
        let (r, m') = acquire_direct c now x.slots in
        rw (e, y) (Adds-trans j (held r j) m x.slots m' (rw e at h) (direct-Adds c now j x.slots))
    | inr n ↦ rw (e, n) (rw e at h)
  ]
]

-- Whatever the pool, the slots and the preferred exit: an exit that is acquired has one call in flight more
-- than before, every other exit as many as before, and where none is acquired all have as many.
pub acquire_slot-Adds :
    (c : Settings) (now prefer j : ℕ) (p : Pool) (m : Slots)
    → let (r, m', p') = acquire_slot c now prefer p m in Adds j (held r j) m m'
unfolding acquire_slot
acquire_slot-Adds c now prefer j p m = elim (Bool-cases (is_empty p.cache)) [
  | inl y ↦ rw y (direct-Adds c now j m)
  | inr n ↦ rw n (
      fallback-Adds c now j m (pick_proxy_preferring c now prefer p m)
        (pick-Adds c now prefer j p m))
]
