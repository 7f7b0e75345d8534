-- ===== src/RateLimit/Slots.antt =====
-- The map of slots, and what one call on it does.
use gemini_web2api_go_browse.Prelude.{
  ℕ, ◌+◌, ◌-◌, ◌≡◌, ◌≢◌, ◌∙◌, ap, [], ◌∷◌, Option, none, some, arith, ◌==◌, if◌then◌else◌,
}
use gemini_web2api_go_browse.RateLimit.{
  Limits, IpSlot, Reason, Slots, find_slot, get_slot, put_slot, try_acquire, try_slot_acquire,
  slot_release, release,
}

pub get_slot-put_slot :
    (i j : ℕ) (s : IpSlot) (m : Slots)
    → get_slot j (put_slot i s m) ≡ (if i == j then s else get_slot j m)
unfolding get_slot find_slot put_slot
get_slot-put_slot i j s [] = ground arith
get_slot-put_slot i j s ((k, t) ∷ m) = ground (arith, get_slot-put_slot i j s m)

-- An attempt on one exit leaves the slots of the others as they are.
pub try_slot_acquire_other :
    (l : Limits) (now i j : ℕ) (m : Slots)
    → i ≢ j
    → get_slot j (try_slot_acquire l now i m).1 ≡ get_slot j m
unfolding try_slot_acquire
try_slot_acquire_other l now i j m h =
    get_slot-put_slot i j (try_acquire l now (get_slot i m)).1 m ∙ ground arith

pub try_slot_acquire_self :
    (l : Limits) (now i : ℕ) (m : Slots)
    → get_slot i (try_slot_acquire l now i m).1 ≡ (try_acquire l now (get_slot i m)).1
unfolding try_slot_acquire
try_slot_acquire_self l now i m =
    get_slot-put_slot i i (try_acquire l now (get_slot i m)).1 m ∙ ground arith

-- An attempt that is granted adds one call in flight, one that is refused none.
abbrev pub taken : Option Reason → ℕ
taken none = 1
taken (some r) = 0

pub try_acquire-inflight :
    (l : Limits) (now : ℕ) (s : IpSlot)
    → (try_acquire l now s).1.inflight ≡ s.inflight + taken (try_acquire l now s).0
unfolding try_acquire
try_acquire-inflight l now s = ground arith

pub try_slot_acquire-inflight :
    (l : Limits) (now i j : ℕ) (m : Slots)
    → (get_slot j (try_slot_acquire l now i m).1).inflight
      ≡ (get_slot j m).inflight + (if i == j then taken (try_slot_acquire l now i m).0 else 0)
unfolding try_slot_acquire
try_slot_acquire-inflight l now i j m =
    let count = try_acquire-inflight l now (get_slot i m) in
    let at = ap (λ s. s.inflight) (get_slot-put_slot i j (try_acquire l now (get_slot i m)).1 m) in
    ground (arith, count, at)

pub slot_release-inflight :
    (i j : ℕ) (m : Slots)
    → (get_slot j (slot_release i m)).inflight ≡ (get_slot j m).inflight - (if i == j then 1 else 0)
unfolding slot_release release
slot_release-inflight i j m =
    let at = ap (λ s. s.inflight) (get_slot-put_slot i j (release (get_slot i m)) m) in
    ground (arith, at)

-- For every exit, time and map of slots: a granted attempt followed by its release leaves every
-- exit, this one and the others, with as many calls in flight as before; so does a refused attempt.
pub acquire-release :
    (l : Limits) (now i j : ℕ) (m : Slots)
    → let (reason, m') = try_slot_acquire l now i m in
      (reason ≡ none → (get_slot j (slot_release i m')).inflight ≡ (get_slot j m).inflight)
      × (reason ≢ none → (get_slot j m').inflight ≡ (get_slot j m).inflight)
unfolding slot_release release try_slot_acquire
acquire-release l now i j m =
    let (reason, t) = try_acquire l now (get_slot i m) in
    let m' = put_slot i t m in
    let count = try_acquire-inflight l now (get_slot i m) in
    let own = ap (λ s. s.inflight) (get_slot-put_slot i i t m) in
    let at = ap (λ s. s.inflight) (get_slot-put_slot i j t m) in
    let after = ap (λ s. s.inflight) (get_slot-put_slot i j (release (get_slot i m')) m') in
    ((λ e. ground (arith, count, own, at, after)), (λ e. ground (arith, count, own, at, after)))
