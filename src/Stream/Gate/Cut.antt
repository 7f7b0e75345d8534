-- ===== src/Stream/Gate/Cut.antt =====
-- Where a marker may begin: at the first place from which the text and the marker agree as far as
-- both go. That place is the marker's index, or leaves the longest suffix that begins the marker.
use gemini_web2api_go_browse.Prelude.{
  ℕ, zero, suc, ◌-◌, ◌≤◌, ◌<◌, ◌≡◌, refl, sym, ap, Bool, true, false, ◌&&◌, [], ◌∷◌, ◌++◌, none,
  some, arith, ◌==◌, ltb, if◌then◌else◌, length, take, drop, Text, index, has_prefix, Bool-cases,
  inl, inr, length-index, Option-cases, some_ne_none,
}
use gemini_web2api_go_browse.Stream.Gate.{longest_suffix, partial_prefix_len}

pub agrees : Text → Text → Bool
agrees [] s = true
agrees (c ∷ m) [] = true
agrees (c ∷ m) (d ∷ s) = c == d && agrees m s

agrees_of_prefix : (m s : Text) → has_prefix m s ≡ true → agrees m s ≡ true
unfolding agrees has_prefix
agrees_of_prefix [] s h = refl
agrees_of_prefix (c ∷ m) [] h = refl
agrees_of_prefix (c ∷ m) (d ∷ s) h = ground (arith, agrees_of_prefix m s)

agrees_long : (m s : Text) → length m ≤ length s → agrees m s ≡ has_prefix m s
unfolding agrees has_prefix
agrees_long [] s h = refl
agrees_long (c ∷ m) [] h = absurd (omega arith)
agrees_long (c ∷ m) (d ∷ s) h = ground (arith, agrees_long m s)

agrees_short : (m s : Text) → length s ≤ length m → agrees m s ≡ has_prefix s m
unfolding agrees has_prefix
agrees_short [] [] h = refl
agrees_short [] (d ∷ s) h = absurd (omega arith)
agrees_short (c ∷ m) [] h = refl
agrees_short (c ∷ m) (d ∷ s) h = ground (arith, agrees_short m s)

agrees-append : (m s b : Text) → agrees m s ≡ false → agrees m (s ++ b) ≡ false
unfolding agrees
agrees-append [] s b h = h
agrees-append (c ∷ m) [] b h = cc
agrees-append (c ∷ m) (d ∷ s) b h = ground (arith, agrees-append m s b)

-- The text before that place, and the text from it.
unfoldable pub before : Text → Text → Text
before m [] = []
before m (c ∷ s) = if agrees m (c ∷ s) then [] else c ∷ before m s

unfoldable pub from : Text → Text → Text
from m [] = []
from m (c ∷ s) = if agrees m (c ∷ s) then c ∷ s else from m s

pub before-from : (m s : Text) → before m s ++ from m s ≡ s
unfolding before from
before-from m [] = refl
before-from m (c ∷ s) = ground (arith, before-from m s)

-- More text behind does not move the place.
pub before-append : (m s b : Text) → before m (s ++ b) ≡ before m s ++ before m (from m s ++ b)
unfolding before from
before-append m [] b = refl
before-append m (c ∷ s) b = ground (arith, before-append m s b, agrees-append m (c ∷ s) b)

pub from-append : (m s b : Text) → from m (s ++ b) ≡ from m (from m s ++ b)
unfolding from
from-append m [] b = refl
from-append m (c ∷ s) b = ground (arith, from-append m s b, agrees-append m (c ∷ s) b)

-- A marker that is found is found at that place.
pub index_found :
    (m s : Text) (i : ℕ)
    → index m s ≡ some i
    → (take i s ≡ before m s) × (drop i s ≡ from m s) × (has_prefix m (from m s) ≡ true)
unfolding index before from
index_found [] [] i h = ground arith
index_found (x ∷ m) [] i h = absurd (cc)
index_found m (c ∷ s) i h = elim (Bool-cases (has_prefix m (c ∷ s))) [
  | inl y ↦ ground (arith, agrees_of_prefix m (c ∷ s) y)
  | inr n ↦ elim (Option-cases (index m s)) [
    | inl e ↦ absurd (some_ne_none (sym (rw (n, e) at h)))
    | inr (j, e) ↦ ground (arith, index_found m s j e, agrees_long m (c ∷ s), length-index m s j e)
  ]
]

longest_suffix-cons :
    (k c : ℕ) (s m : Text) → k ≤ length s → longest_suffix k (c ∷ s) m ≡ longest_suffix k s m
unfolding longest_suffix
longest_suffix-cons zero c s m h = refl
longest_suffix-cons (suc k) c s m h =
    let e : suc (length s) - suc k ≡ suc (length s - suc k) = omega arith in
    rw (e, longest_suffix-cons k c s m (omega arith))

drop_none : (s : Text) → drop (length s - length s) s ≡ s
drop_none s = let e : length s - length s ≡ 0 = omega arith in rw e refl

partial_prefix_len-cons :
    (x c : ℕ) (m s : Text)
    → has_prefix (x ∷ m) (c ∷ s) ≡ false
    → partial_prefix_len (c ∷ s) (x ∷ m)
      ≡ (if agrees (x ∷ m) (c ∷ s) then suc (length s) else partial_prefix_len s (x ∷ m))
unfolding partial_prefix_len longest_suffix
partial_prefix_len-cons x c m s n = elim (Bool-cases (ltb (length s) (length m))) [
  | inl short ↦ ground (
    arith,
    agrees_short (x ∷ m) (c ∷ s),
    longest_suffix-cons (length s) c s (x ∷ m),
    ap (λ t. has_prefix t (x ∷ m)) (drop_none (c ∷ s)),
  )
  | inr long ↦
      ground (arith, agrees_long (x ∷ m) (c ∷ s), longest_suffix-cons (length m) c s (x ∷ m))
]

index_tail :
    (m s : Text) (c : ℕ)
    → index m (c ∷ s) ≡ none
    → (has_prefix m (c ∷ s) ≡ false) × (index m s ≡ none)
unfolding index
index_tail m s c h = elim (Bool-cases (has_prefix m (c ∷ s))) [
  | inl y ↦ absurd (some_ne_none (rw y at h))
  | inr n ↦ elim (Option-cases (index m s)) [
    | inl e ↦ (n, e)
    | inr (j, e) ↦ absurd (some_ne_none (rw (n, e) at h))
  ]
]

-- A marker that is not found leaves, from that place, the longest suffix that begins it.
pub index_missing :
    (x : ℕ) (m s : Text)
    → index (x ∷ m) s ≡ none
    → (has_prefix (x ∷ m) (from (x ∷ m) s) ≡ false)
      × (length (from (x ∷ m) s) ≡ partial_prefix_len s (x ∷ m))
unfolding from
index_missing x m [] h = unfold partial_prefix_len longest_suffix has_prefix in ground arith
index_missing x m (c ∷ s) h =
    let (n, rest) = index_tail (x ∷ m) s c h in
    ground (arith, n, partial_prefix_len-cons x c m s n, index_missing x m s rest)

-- Where the text begins with the marker, that place is its start.
pub starts_there :
    (x : ℕ) (m s : Text)
    → has_prefix (x ∷ m) s ≡ true
    → (before (x ∷ m) s ≡ []) × (from (x ∷ m) s ≡ s)
unfolding before from
starts_there x m [] h = unfold has_prefix in cc
starts_there x m (c ∷ s) h = let e = agrees_of_prefix (x ∷ m) (c ∷ s) h in rw e (refl, refl)

-- Where the marker is not found at that place, too little text is left for it.
pub short_from :
    (x : ℕ) (m s : Text)
    → has_prefix (x ∷ m) (from (x ∷ m) s) ≡ false
    → length (from (x ∷ m) s) < length (x ∷ m)
unfolding from
short_from x m [] h = omega arith
short_from x m (c ∷ s) h = ground (arith, agrees_long (x ∷ m) (c ∷ s), short_from x m s)

pub before_has_none :
    (m : Text) (c : ℕ) (s : Text) → agrees m (c ∷ s) ≡ false → has_prefix m (c ∷ s) ≡ false
before_has_none m c s h = elim (Bool-cases (has_prefix m (c ∷ s))) [
  | inl y ↦ cc (agrees_of_prefix m (c ∷ s) y)
  | inr n ↦ n
]
