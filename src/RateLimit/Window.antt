-- ===== src/RateLimit/Window.antt =====
-- The sliding windows of a slot: what pruning keeps.
use gemini_web2api_go_browse.Prelude.{
  ℕ, ◌≤◌, ◌≡◌, refl, List, [], ◌∷◌, ◌++◌, arith, leb, length, keep, length-keep-le, ◌&&◌, Bool,
}
use gemini_web2api_go_browse.RateLimit.{prune_timestamps}

-- Times in the order of the clock, the first not before `t`.
abbrev pub SortedFrom : ℕ → List ℕ → Type 0
SortedFrom t [] = Unit {0}
SortedFrom t (x ∷ xs) = (t ≤ x) × SortedFrom x xs

keep_all : (c t : ℕ) (ts : List ℕ) → c ≤ t → SortedFrom t ts → keep (leb c) ts ≡ ts
keep_all c t [] h s = refl
keep_all c t (x ∷ xs) h s = ground (arith, keep_all c x xs)

-- On times in order, cutting off the front leaves exactly the times that are not before the cutoff.
pub prune-keep :
    (t : ℕ) (ts : List ℕ) (cutoff : ℕ)
    → SortedFrom t ts
    → prune_timestamps ts cutoff ≡ keep (leb cutoff) ts
unfolding prune_timestamps
prune-keep t [] cutoff s = refl
prune-keep t (x ∷ xs) cutoff s = ground (arith, prune-keep x xs cutoff, keep_all cutoff x xs)

pub prune-prune :
    (ts : List ℕ) (c d : ℕ)
    → c ≤ d
    → prune_timestamps (prune_timestamps ts c) d ≡ prune_timestamps ts d
unfolding prune_timestamps
prune-prune [] c d h = refl
prune-prune (x ∷ xs) c d h = ground (arith, prune-prune xs c d)

pub prune-snoc :
    (ts : List ℕ) (c now : ℕ)
    → c ≤ now
    → prune_timestamps (ts ++ now ∷ []) c ≡ prune_timestamps ts c ++ now ∷ []
unfolding prune_timestamps
prune-snoc [] c now h = ground arith
prune-snoc (x ∷ xs) c now h = ground (arith, prune-snoc xs c now)

-- `a ≤ t ≤ b`
abbrev pub within : ℕ → ℕ → ℕ → Bool
within a b t = leb a t && leb t b

-- How many of the times lie in the interval from `a` to `b`, its ends included.
abbrev pub count_within : ℕ → ℕ → List ℕ → ℕ
count_within a b ts = length (keep (within a b) ts)

pub count_within-prune :
    (a b : ℕ) (ts : List ℕ) (c : ℕ) → c ≤ a → count_within a b ts ≤ length (prune_timestamps ts c)
unfolding prune_timestamps
count_within-prune a b [] c h = omega arith
count_within-prune a b (x ∷ xs) c h =
    ground (arith, count_within-prune a b xs c, length-keep-le (within a b) xs)
