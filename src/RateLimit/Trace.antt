-- ===== src/RateLimit/Trace.antt =====
-- A slot over a history of calls: no interval of a minute or an hour sees more grants than the
-- limit, and no more calls are in flight than the limit.
use gemini_web2api_go_browse.Prelude.{
  ℕ, ◌+◌, ◌-◌, ◌≤◌, ◌<◌, ◌≡◌, refl, ap, ◌∙◌, List, [], ◌∷◌, ◌++◌, Option, none, some, arith, length,
  false, Bool-cases, inl, inr,
}
use gemini_web2api_go_browse.RateLimit.{
  Limits, IpSlot, Reason, concurrent, rpm, rph, empty_slot, prune_timestamps, try_acquire, release,
  take_slot, prune_slot, is_full,
}
use gemini_web2api_go_browse.RateLimit.Window.{
  count_within, count_within-prune, prune-prune, prune-snoc,
}

-- A call of trySlotAcquire at a time of the clock, or of slotRelease.
pub data Call : Type 0 where
  attempt : ℕ → Call
  give_back : Call

-- The slot, and what was granted so far: the times of the grants, oldest first, and how many of them
-- were not given back since. A return without a grant does not count.
pub record Run : Type 0 where
  pub slot : IpSlot
  pub grants : List ℕ
  pub held : ℕ

abbrev log : Option Reason → ℕ → List ℕ → List ℕ
log none t g = g ++ t ∷ []
log (some r) t g = g

abbrev one_more : Option Reason → ℕ → ℕ
one_more none n = n + 1
one_more (some r) n = n

pub step : Limits → Run → Call → Run
step l r (attempt t) =
    let (reason, s) = try_acquire l t r.slot in
    record { slot = s; grants = log reason t r.grants; held = one_more reason r.held }
step l r give_back = record r { slot = release r.slot; held = r.held - 1 }

pub run : Limits → Run → List Call → Run
unfolding step
run l r [] = r
run l r (c ∷ cs) = run l (step l r c) cs

pub start : Run
start = record { slot = empty_slot; grants = []; held = 0 }

-- The clock does not run backwards over the calls, and does not stand before `t`.
abbrev pub ClockFrom : ℕ → List Call → Type 0
ClockFrom t [] = Unit {0}
ClockFrom t (attempt u ∷ cs) = (t ≤ u) × ClockFrom u cs
ClockFrom t (give_back ∷ cs) = ClockFrom t cs

-- The state of one window of `width` seconds under `limit`, at the time `t` of the last attempt:
-- it is the log, pruned, and no interval of that width holds more grants than the limit.
record Bounded (width limit t : ℕ) (win grants : List ℕ) : Type 0 where
  cut : ℕ
  cut_le : cut ≤ t - width
  shows : win ≡ prune_timestamps grants cut
  few : (a : ℕ) → count_within a (a + width) grants ≤ limit

count_within-snoc :
    (a b t : ℕ) (g : List ℕ)
    → count_within a b (g ++ t ∷ []) ≡ count_within a b g + count_within a b (t ∷ [])
count_within-snoc a b t [] = ground arith
count_within-snoc a b t (x ∷ g) = ground (arith, count_within-snoc a b t g)

module _ (width limit t u : ℕ) (win grants : List ℕ) (le : t ≤ u)
    (b : Bounded width limit t win grants) where
  abbrev pruned : List ℕ
  pruned = prune_timestamps win (u - width)

  pruned_shows : pruned ≡ prune_timestamps grants (u - width)
  pruned_shows =
      ap (λ w. prune_timestamps w (u - width)) b.shows
      ∙ prune-prune grants b.cut (u - width) (omega (arith, b.cut_le))

  Bounded-prune : Bounded width limit u pruned grants
  Bounded-prune = record {
    cut = u - width;
    cut_le = omega arith;
    shows = pruned_shows;
    few = b.few;
  }

  Bounded-grant :
      length pruned < limit → Bounded width limit u (pruned ++ u ∷ []) (grants ++ u ∷ [])
  Bounded-grant room = record {
    cut = u - width;
    cut_le = omega arith;
    shows = rw (pruned_shows, prune-snoc grants (u - width) u (omega arith));
    few = λ a. ground (
      arith,
      b.few a,
      count_within-snoc a (a + width) u grants,
      count_within-prune a (a + width) grants (u - width),
      ap length pruned_shows,
    );
  }

-- An attempt either only prunes, or finds room under every limit that is on, and takes the slot.
HasRoom : Limits → IpSlot → Type 0
HasRoom l s =
    (is_full l.per_ip_concurrent s.inflight ≡ false)
    × (is_full l.per_ip_rpm (length s.minute_win) ≡ false)
    × (is_full l.per_ip_rph (length s.hour_win) ≡ false)

attempt_cases :
    (P : Option Reason → IpSlot → Type 0) (l : Limits) (now : ℕ) (s : IpSlot)
    → ((r : Reason) → P (some r) (prune_slot s now))
    → (HasRoom l (prune_slot s now) → P none (take_slot (prune_slot s now) now))
    → P (try_acquire l now s).0 (try_acquire l now s).1
unfolding try_acquire HasRoom
attempt_cases P l now s refused granted =
    elim (Bool-cases (is_full l.per_ip_concurrent s.inflight)) [
      | inl e ↦ rw (e) (refused concurrent)
      | inr e ↦ elim (Bool-cases (is_full l.per_ip_rpm (length (prune_slot s now).minute_win))) [
        | inl f ↦ rw (e, f) (refused rpm)
        | inr f ↦ elim (Bool-cases (is_full l.per_ip_rph (length (prune_slot s now).hour_win))) [
          | inl g ↦ rw (e, f, g) (refused rph)
          | inr g ↦ rw (e, f, g) (granted (e, f, g))
        ]
      ]
    ]

-- What one attempt keeps of a run, for each window that has a limit.
record Kept (l : Limits) (t : ℕ) (r : Run) : Type 0 where
  minute : 0 < l.per_ip_rpm → Bounded 60 l.per_ip_rpm t r.slot.minute_win r.grants
  hour : 0 < l.per_ip_rph → Bounded 3600 l.per_ip_rph t r.slot.hour_win r.grants
  calls : 0 < l.per_ip_concurrent → r.held ≤ l.per_ip_concurrent
  counted : r.slot.inflight ≡ r.held

room_lt : (limit n : ℕ) → 0 < limit → is_full limit n ≡ false → n < limit
room_lt limit n h e = ground arith

step-Kept : (l : Limits) (t u : ℕ) (r : Run) → t ≤ u → Kept l t r → Kept l u (step l r (attempt u))
unfolding step HasRoom prune_slot take_slot
step-Kept l t u r le k =
    attempt_cases
      (λ reason s.
        Kept l u
          (record { slot = s; grants = log reason u r.grants; held = one_more reason r.held }))
      l u r.slot
      (λ reason. record {
        minute = λ on. Bounded-prune 60 _ t u _ _ le (k.minute on);
        hour = λ on. Bounded-prune 3600 _ t u _ _ le (k.hour on);
        calls = k.calls;
        counted = k.counted;
      })
      (λ room. record {
        minute = λ on. Bounded-grant 60 _ t u _ _ le (k.minute on) (room_lt _ _ on room.1);
        hour = λ on. Bounded-grant 3600 _ t u _ _ le (k.hour on) (room_lt _ _ on room.2);
        calls = λ on. omega (arith, room_lt _ _ on room.0, k.counted);
        counted = omega (arith, k.counted);
      })

give_back-Kept : (l : Limits) (t : ℕ) (r : Run) → Kept l t r → Kept l t (step l r give_back)
unfolding step release
give_back-Kept l t r k = record {
  minute = λ on. ground (arith, k.minute on);
  hour = λ on. ground (arith, k.hour on);
  calls = λ on. omega (arith, k.calls on);
  counted = ground (arith, k.counted);
}

run-Kept :
    (l : Limits) (t : ℕ) (r : Run) (cs : List Call)
    → Kept l t r
    → ClockFrom t cs
    → (u : ℕ) × Kept l u (run l r cs)
unfolding run
run-Kept l t r [] k c = (t, k)
run-Kept l t r (attempt u ∷ cs) k c = run-Kept l u _ cs (step-Kept l t u r c.0 k) c.1
run-Kept l t r (give_back ∷ cs) k c = run-Kept l t _ cs (give_back-Kept l t r k) c

start-Kept : (l : Limits) → Kept l 0 start
unfolding start prune_timestamps
start-Kept l = record {
  minute = λ on. record { cut = 0; cut_le = omega arith; shows = refl; few = λ a. omega arith };
  hour = λ on. record { cut = 0; cut_le = omega arith; shows = refl; few = λ a. omega arith };
  calls = λ on. omega arith;
  counted = refl;
}

-- Over any calls on a new slot, with a clock that does not run backwards: where the limit per
-- minute is on, no interval of 60 seconds, both ends included, holds more grants than it; likewise
-- the limit per hour and 3600 seconds; where the limit on concurrency is on, no more grants than it
-- are held, granted and not given back; and the slot's count of calls in flight is the number of those.
pub run_bounds :
    (l : Limits) (cs : List Call)
    → ClockFrom 0 cs
    → (0 < l.per_ip_rpm → (a : ℕ) → count_within a (a + 60) (run l start cs).grants ≤ l.per_ip_rpm)
      × (0 < l.per_ip_rph
          → (a : ℕ) → count_within a (a + 3600) (run l start cs).grants ≤ l.per_ip_rph)
      × (0 < l.per_ip_concurrent → (run l start cs).held ≤ l.per_ip_concurrent)
      × ((run l start cs).slot.inflight ≡ (run l start cs).held)
run_bounds l cs c =
    let (u, k) = run-Kept l 0 start cs (start-Kept l) c in
    ((λ on. (k.minute on).few), (λ on. (k.hour on).few), k.calls, k.counted)
