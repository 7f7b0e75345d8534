-- ===== src/Scheduler/Percentiles.antt =====
-- percentiles: the values that it picks, by their rank among the latencies.
use gemini_web2api_go_browse.Prelude.{
  ℕ, zero, suc, ◌+◌, ◌-◌, ◌*◌, ◌/◌, ◌≤◌, ◌<◌, ◌≡◌, refl, sym, ap, subst, ◌∙◌, Bool, false, List, [],
  ◌∷◌, arith, leb, if◌then◌else◌, length, Bool-cases, inl, inr, All,
}
use gemini_web2api_go_browse.Scheduler.{insert_sorted, sort_ints, percentiles, at}

-- How many of the numbers pass the test.
abbrev pub count : (ℕ → Bool) → List ℕ → ℕ
count p [] = 0
count p (x ∷ xs) = if p x then suc (count p xs) else count p xs

abbrev SortedList : List ℕ → Type 0
SortedList [] = Unit {0}
SortedList (x ∷ xs) = All (λ y. x ≤ y) xs × SortedList xs

insert-All : (P : ℕ → Type 0) (x : ℕ) (xs : List ℕ) → P x → All P xs → All P (insert_sorted x xs)
unfolding insert_sorted
insert-All P x [] p h = (p, tt)
insert-All P x (y ∷ ys) p (q, h) = elim (Bool-cases (leb x y)) [
  | inl le ↦ rw le (p, (q, h))
  | inr gt ↦ rw gt (q, insert-All P x ys p h)
]

All-below : (x y : ℕ) (ys : List ℕ) → x ≤ y → All (λ z. y ≤ z) ys → All (λ z. x ≤ z) ys
All-below x y [] le h = tt
All-below x y (z ∷ zs) le (q, h) = (omega arith, All-below x y zs le h)

insert-Sorted : (x : ℕ) (xs : List ℕ) → SortedList xs → SortedList (insert_sorted x xs)
unfolding insert_sorted
insert-Sorted x [] h = (tt, tt)
insert-Sorted x (y ∷ ys) (f, h) = elim (Bool-cases (leb x y)) [
  | inl le ↦ rw le ((ground arith, All-below x y ys (ground arith) f), (f, h))
  | inr gt ↦ rw gt (insert-All (λ z. y ≤ z) x ys (ground arith) f, insert-Sorted x ys h)
]

sort-Sorted : (xs : List ℕ) → SortedList (sort_ints xs)
unfolding sort_ints
sort-Sorted [] = tt
sort-Sorted (x ∷ xs) = insert-Sorted x (sort_ints xs) (sort-Sorted xs)

insert-count :
    (p : ℕ → Bool) (x : ℕ) (xs : List ℕ) → count p (insert_sorted x xs) ≡ count p (x ∷ xs)
unfolding insert_sorted
insert-count p x [] = refl
insert-count p x (y ∷ ys) = ground (arith, insert-count p x ys)

sort-count : (p : ℕ → Bool) (xs : List ℕ) → count p (sort_ints xs) ≡ count p xs
unfolding sort_ints
sort-count p [] = refl
sort-count p (x ∷ xs) = insert-count p x (sort_ints xs) ∙ ground (arith, sort-count p xs)

insert-length : (x : ℕ) (xs : List ℕ) → length (insert_sorted x xs) ≡ suc (length xs)
unfolding insert_sorted
insert-length x [] = refl
insert-length x (y ∷ ys) = ground (arith, insert-length x ys)

sort-length : (xs : List ℕ) → length (sort_ints xs) ≡ length xs
unfolding sort_ints
sort-length [] = refl
sort-length (x ∷ xs) = insert-length x (sort_ints xs) ∙ ap suc (sort-length xs)

at-All : (P : ℕ → Type 0) (s : List ℕ) (k : ℕ) → k < length s → All P s → P (at s k)
at-All P [] k h ps = absurd (omega arith)
at-All P (x ∷ s) zero h (p, ps) = p
at-All P (x ∷ s) (suc k) h (p, ps) = at-All P s k (omega arith) ps

count_from : (v : ℕ) (s : List ℕ) → All (λ z. v ≤ z) s → count (leb v) s ≡ length s
count_from v [] h = refl
count_from v (x ∷ s) (le, h) = ground (arith, count_from v s h)

-- On a sorted list: the value at an index has that many others up to it, and the rest from it.
rank_low : (s : List ℕ) (k : ℕ) → SortedList s → k < length s → k < count (λ x. leb x (at s k)) s
rank_low [] k o h = absurd (omega arith)
rank_low (x ∷ s) zero o h = ground arith
rank_low (x ∷ s) (suc k) (f, o) h =
    let le : x ≤ at s k = at-All (λ y. x ≤ y) s k (omega arith) f in
    ground (arith, rank_low s k o (omega arith))

rank_high :
    (s : List ℕ) (k : ℕ) → SortedList s → k < length s → length s ≤ k + count (leb (at s k)) s
rank_high [] k o h = absurd (omega arith)
rank_high (x ∷ s) zero (f, o) h = ground (arith, count_from x s f)
rank_high (x ∷ s) (suc k) (f, o) h = ground (arith, rank_high s k o (omega arith))

at_mono : (s : List ℕ) (j k : ℕ) → SortedList s → j ≤ k → k < length s → at s j ≤ at s k
at_mono [] j k o le h = absurd (omega arith)
at_mono (x ∷ s) zero zero o le h = omega arith
at_mono (x ∷ s) zero (suc k) (f, o) le h = at-All (λ y. x ≤ y) s k (omega arith) f
at_mono (x ∷ s) (suc j) zero o le h = absurd (omega arith)
at_mono (x ∷ s) (suc j) (suc k) (f, o) le h = at_mono s j k o (omega arith) (omega arith)

-- `v` has the rank `k` among `xs`: more than `k` of them are not above it, and all but `k` at most
-- are not below it.
abbrev pub HasRank : ℕ → ℕ → List ℕ → Type 0
HasRank k v xs = (k < count (λ x. leb x v) xs) × (length xs ≤ k + count (leb v) xs)

at-HasRank : (xs : List ℕ) (k : ℕ) → k < length xs → HasRank k (at (sort_ints xs) k) xs
at-HasRank xs k h =
    let s = sort_ints xs in
    let v = at s k in
    let fits : k < length s = omega (arith, h, sort-length xs) in
    (
      omega (arith, rank_low s k (sort-Sorted xs) fits, sort-count (λ x. leb x v) xs),
      omega (arith, rank_high s k (sort-Sorted xs) fits, sort-count (leb v) xs, sort-length xs),
    )

percentiles_at :
    (x : ℕ) (xs : List ℕ)
    → let n = length (x ∷ xs) in
      let s = sort_ints (x ∷ xs) in
      percentiles (x ∷ xs) ≡ (at s (n * 50 / 100), at s (n * 95 / 100))
unfolding percentiles
percentiles_at x xs =
    let n = length (x ∷ xs) in
    let inside : leb n (n * 95 / 100) ≡ false = ground arith in
    ap
      (λ b. (
        at (sort_ints (x ∷ xs)) (n * 50 / 100),
        at (sort_ints (x ∷ xs)) (if b then n - 1 else n * 95 / 100),
      ))
      inside

-- For any latencies, at least one: the first value has the rank of half of them and the second of 95
-- in 100, both rounded down, whatever order they came in; and the first is at most the second.
pub percentiles_lem :
    (x : ℕ) (xs : List ℕ)
    → let n = length (x ∷ xs) in
      let (p50, p95) = percentiles (x ∷ xs) in
      HasRank (n * 50 / 100) p50 (x ∷ xs) × HasRank (n * 95 / 100) p95 (x ∷ xs) × (p50 ≤ p95)
percentiles_lem x xs =
    let n = length (x ∷ xs) in
    let low : n * 50 / 100 < n = omega arith in
    let high : n * 95 / 100 < n = omega arith in
    let order : n * 50 / 100 ≤ n * 95 / 100 = omega arith in
    subst
      (λ (q : ℕ × ℕ).
        HasRank (n * 50 / 100) q.0 (x ∷ xs) × HasRank (n * 95 / 100) q.1 (x ∷ xs) × (q.0 ≤ q.1))
      (sym (percentiles_at x xs))
      (
        at-HasRank (x ∷ xs) (n * 50 / 100) low,
        at-HasRank (x ∷ xs) (n * 95 / 100) high,
        at_mono (sort_ints (x ∷ xs)) (n * 50 / 100) (n * 95 / 100) (sort-Sorted (x ∷ xs)) order
            (omega (arith, high, sort-length (x ∷ xs))),
      )
