-- ===== src/RateLimit.antt =====
-- internal/app/ratelimit.go: the slot of one exit IP and the map of slots.
-- Time is the Unix second that a call reads; ids, times and limits are not negative, and a negative
-- limit of the source acts as 0. `none` as a reason means that the slot was granted.
pub mod Window
pub mod Trace
pub mod Slots
pub mod Verdict
mod Examples
use gemini_web2api_go_browse.Prelude.{
  ℕ, zero, suc, ◌+◌, ◌-◌, ◌≡◌, refl, Bool, true, false, ◌&&◌, ◌++◌, List, [], ◌∷◌, Option, none,
  some, ltb, leb, ◌==◌, if◌then◌else◌, length,
}

-- rtCfg().PerIPConcurrent, PerIPRPM and PerIPRPH.
pub record Limits : Type 0 where
  pub per_ip_concurrent : ℕ
  pub per_ip_rpm : ℕ
  pub per_ip_rph : ℕ

pub record IpSlot : Type 0 where
  pub inflight : ℕ
  pub minute_win : List ℕ
  pub hour_win : List ℕ

pub data Reason : Type 0 where
  concurrent rpm rph : Reason

abbrev pub empty_slot : IpSlot
empty_slot = record { inflight = 0; minute_win = []; hour_win = [] }

-- Times are appended in order; the ones before the cutoff are cut off the front.
pub prune_timestamps : List ℕ → ℕ → List ℕ
prune_timestamps [] cutoff = []
prune_timestamps (t ∷ ts) cutoff = if ltb t cutoff then prune_timestamps ts cutoff else t ∷ ts

pub prune_slot : IpSlot → ℕ → IpSlot
unfolding prune_timestamps
prune_slot s now = record s {
  minute_win = prune_timestamps s.minute_win (now - 60);
  hour_win = prune_timestamps s.hour_win (now - 3600);
}

-- `limit > 0 && n >= limit`
abbrev pub is_full : ℕ → ℕ → Bool
is_full limit n = ltb 0 limit && leb limit n

take_slot : IpSlot → ℕ → IpSlot
take_slot s now = record {
  inflight = s.inflight + 1;
  minute_win = s.minute_win ++ now ∷ [];
  hour_win = s.hour_win ++ now ∷ [];
}

-- The body of trySlotAcquire under the slot's lock.
unfoldable pub try_acquire : Limits → ℕ → IpSlot → Option Reason × IpSlot
unfolding prune_slot take_slot
try_acquire l now s0 =
    let s : IpSlot = prune_slot s0 now in
    if is_full l.per_ip_concurrent s.inflight
    then (some concurrent, s)
    else if is_full l.per_ip_rpm (length s.minute_win)
    then (some rpm, s)
    else if is_full l.per_ip_rph (length s.hour_win)
    then (some rph, s)
    else (none, take_slot s now)

-- The body of slotRelease under the slot's lock.
pub release : IpSlot → IpSlot
release s = if ltb 0 s.inflight then record s { inflight = s.inflight - 1 } else s

-- `slots`, the map from a proxy's id to its slot; 0 is the direct exit.
abbrev pub Slots : Type 0
Slots = List (ℕ × IpSlot)

unfoldable pub find_slot : ℕ → Slots → Option IpSlot
find_slot i [] = none
find_slot i ((j, s) ∷ m) = if j == i then some s else find_slot i m

-- A slot that is missing is made on first use.
abbrev or_new : Option IpSlot → IpSlot
or_new none = empty_slot
or_new (some s) = s

unfoldable pub get_slot : ℕ → Slots → IpSlot
unfolding find_slot
get_slot i m = or_new (find_slot i m)

unfoldable pub put_slot : ℕ → IpSlot → Slots → Slots
put_slot i s [] = (i, s) ∷ []
put_slot i s ((j, t) ∷ m) = if j == i then (j, s) ∷ m else (j, t) ∷ put_slot i s m

unfoldable pub try_slot_acquire : Limits → ℕ → ℕ → Slots → Option Reason × Slots
try_slot_acquire l now i m = let (r, s) = try_acquire l now (get_slot i m) in (r, put_slot i s m)

unfoldable pub slot_release : ℕ → Slots → Slots
slot_release i m = put_slot i (release (get_slot i m)) m

pub record SlotUsage : Type 0 where
  pub proxy_id : ℕ
  pub used_inflight : ℕ
  pub used_rpm : ℕ
  pub used_rph : ℕ
  pub limits : Limits

-- slotUsage prunes the slot's windows as it reads them.
pub slot_usage : Limits → ℕ → ℕ → Slots → SlotUsage × Slots
unfolding prune_slot
slot_usage l now i m =
    let s : IpSlot = prune_slot (get_slot i m) now in
    (
      record {
        proxy_id = i;
        used_inflight = s.inflight;
        used_rpm = length s.minute_win;
        used_rph = length s.hour_win;
        limits = l;
      },
      put_slot i s m,
    )
