-- ===== src/RateLimit/Verdict.antt =====
-- Whether the slot of an exit would be granted now, and that refused attempts do not change it.
use gemini_web2api_go_browse.Prelude.{
  ℕ, ◌-◌, ◌≡◌, ◌≢◌, refl, ap, ◌∙◌, Option, none, some, arith, ◌==◌, Bool-cases, inl, inr,
  if◌then◌else◌, length,
}
use gemini_web2api_go_browse.RateLimit.{
  Limits, IpSlot, Reason, concurrent, rpm, rph, Slots, get_slot, try_acquire, try_slot_acquire,
  prune_slot, is_full,
}
use gemini_web2api_go_browse.RateLimit.Window.{prune-prune}
use gemini_web2api_go_browse.RateLimit.Slots.{get_slot-put_slot}

unfoldable pub verdict : Limits → ℕ → Slots → ℕ → Option Reason
verdict l now m i = (try_acquire l now (get_slot i m)).0

prune_slot_twice : (s : IpSlot) (now : ℕ) → prune_slot (prune_slot s now) now ≡ prune_slot s now
unfolding prune_slot
prune_slot_twice s now = rw (
  prune-prune s.minute_win (now - 60) (now - 60) (omega arith),
  prune-prune s.hour_win (now - 3600) (now - 3600) (omega arith),
)

verdict_of : Limits → IpSlot → Option Reason
verdict_of l s =
    if is_full l.per_ip_concurrent s.inflight
    then some concurrent
    else if is_full l.per_ip_rpm (length s.minute_win)
    then some rpm
    else if is_full l.per_ip_rph (length s.hour_win)
    then some rph
    else none

try_acquire-verdict_of :
    (l : Limits) (now : ℕ) (s : IpSlot) → (try_acquire l now s).0 ≡ verdict_of l (prune_slot s now)
unfolding try_acquire verdict_of
try_acquire-verdict_of l now s = ground arith

refused_prunes :
    (l : Limits) (now : ℕ) (s : IpSlot)
    → (try_acquire l now s).0 ≢ none
    → (try_acquire l now s).1 ≡ prune_slot s now
unfolding try_acquire
refused_prunes l now s h = ground arith

pub verdict-refused :
    (l : Limits) (now i j : ℕ) (m : Slots)
    → verdict l now m i ≢ none
    → verdict l now (try_slot_acquire l now i m).1 j ≡ verdict l now m j
unfolding verdict try_slot_acquire
verdict-refused l now i j m h = elim (Bool-cases (i == j)) [
  | inl same ↦
      let e : i ≡ j = ground arith in
      ap (λ s. (try_acquire l now s).0)
        (get_slot-put_slot i j (try_acquire l now (get_slot i m)).1 m
          ∙ rw same (refused_prunes l now (get_slot i m) h))
      ∙ try_acquire-verdict_of l now (prune_slot (get_slot i m) now)
      ∙ rw prune_slot_twice (rw (try_acquire-verdict_of l now (get_slot j m), e))
  | inr other ↦
      ap (λ s. (try_acquire l now s).0)
        (get_slot-put_slot i j (try_acquire l now (get_slot i m)).1 m ∙ rw other)
]

pub try_slot_acquire-verdict :
    (l : Limits) (now i : ℕ) (m : Slots) → (try_slot_acquire l now i m).0 ≡ verdict l now m i
unfolding verdict try_slot_acquire
try_slot_acquire-verdict l now i m = refl
