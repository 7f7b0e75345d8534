-- ===== src/Scheduler/Catchup.antt =====
-- aggregateHourlyCatchup: after it, every closed hour behind the last aggregated one is accounted for.
use gemini_web2api_go_browse.Prelude.{
  ℕ, zero, suc, ◌+◌, ◌-◌, ◌*◌, ◌/◌, ◌%◌, ◌≤◌, ◌<◌, ◌≡◌, refl, sym, ap, ap₂, subst, ◌∙◌, Bool, true,
  false, List, [], ◌∷◌, ◌++◌, arith, ==_iff, ltb, leb, ◌==◌, length, keep, map, Bool-cases, inl,
  inr, ◌⊎◌, All, append-nil, append_assoc,
}
use gemini_web2api_go_browse.Scheduler.{
  Request, Stat, Key, hourly_rows, hourly_stat, in_bucket, request_key, catchup_loop, catchup,
  max_bucket, min_of, aggregate_hourly_catchup, Acc, group_rows, new_acc, add_request,
}
use gemini_web2api_go_browse.Scheduler.Groups.{total, DistinctKeys, stat_keys, hourly_rows-total}
use gemini_web2api_go_browse.Scheduler.Upsert.{InBucket, upsert_all-new, rows-Clear}

-- The rows of `n` buckets in a row, from `b`.
closed_rows : ℕ → ℕ → ℕ → (ℕ → List Stat) → List Stat
closed_rows zero span b rows_of = []
closed_rows (suc n) span b rows_of = rows_of b ++ closed_rows n span (b + span) rows_of

All-both : (P : Stat → Type 0) (xs ys : List Stat) → All P xs → All P ys → All P (xs ++ ys)
All-both P [] ys h k = k
All-both P (x ∷ xs) ys (p, h) k = (p, All-both P xs ys h k)

All-later :
    (b c : ℕ) (xs : List Stat) → b ≤ c → All (λ r. r.bucket < b) xs → All (λ r. r.bucket < c) xs
All-later b c [] le h = tt
All-later b c (x ∷ xs) le (lt, h) = (omega arith, All-later b c xs le h)

InBucket-before : (b c : ℕ) (xs : List Stat) → b < c → InBucket b xs → All (λ r. r.bucket < c) xs
InBucket-before b c [] lt h = tt
InBucket-before b c (x ∷ xs) lt (e, h) = (omega arith, InBucket-before b c xs lt h)

keep-append : (f : Stat → Bool) (xs ys : List Stat) → keep f (xs ++ ys) ≡ keep f xs ++ keep f ys
keep-append f [] ys = refl
keep-append f (x ∷ xs) ys = ground (arith, keep-append f xs ys)

keep_own : (b : ℕ) (xs : List Stat) → InBucket b xs → keep (λ r. r.bucket == b) xs ≡ xs
keep_own b [] h = refl
keep_own b (x ∷ xs) (e, h) = ground (arith, keep_own b xs h)

keep_older :
    (b : ℕ) (xs : List Stat) → All (λ r. r.bucket < b) xs → keep (λ r. r.bucket == b) xs ≡ []
keep_older b [] h = refl
keep_older b (x ∷ xs) (lt, h) = ground (arith, keep_older b xs h)

keep_later :
    (b : ℕ) (xs : List Stat) → All (λ r. b < r.bucket) xs → keep (λ r. r.bucket == b) xs ≡ []
keep_later b [] h = refl
keep_later b (x ∷ xs) (lt, h) = ground (arith, keep_later b xs h)

module _ (rows_of : ℕ → List Stat) (distinct : (b : ℕ) → DistinctKeys (stat_keys (rows_of b)))
    (own : (b : ℕ) → InBucket b (rows_of b)) (span : ℕ) (pos : 0 < span) (current : ℕ) where
  catchup_loop-closed :
      (n b : ℕ) (table : List Stat)
      → (0 < n → b + n * span ≤ current)
      → current < b + (n + 1) * span
      → All (λ r. r.bucket < b) table
      → catchup_loop (suc n) span current b rows_of table ≡ table ++ closed_rows n span b rows_of
  unfolding catchup_loop closed_rows
  catchup_loop-closed zero b table le lt old =
      let stop : leb (b + span) current ≡ false = ground arith in
      rw (stop, catchup_loop) (sym (append-nil table))
  catchup_loop-closed (suc n) b table le lt old =
      let inside = le (omega arith) in
      let go : leb (b + span) current ≡ true = ground (arith, inside) in
      let added =
        upsert_all-new (rows_of b) table (distinct b)
          (rows-Clear b (rows_of b) table (own b) old) in
      rw (go, catchup_loop)
        (rw added (
          catchup_loop-closed n (b + span) (table ++ rows_of b) (λ z. omega (arith, inside))
            (omega arith)
            (All-both (λ r. r.bucket < b + span) table (rows_of b)
              (All-later b (b + span) table (omega arith) old)
              (InBucket-before b (b + span) (rows_of b) (omega arith) (own b)))
          ∙ append_assoc table (rows_of b) (closed_rows n span (b + span) rows_of)))

  -- The rows of one bucket among those of many.
  closed-later : (n h c : ℕ) → h < c → All (λ r. h < r.bucket) (closed_rows n span c rows_of)
  unfolding closed_rows
  closed-later zero h c lt = tt
  closed-later (suc n) h c lt =
      All-both (λ r. h < r.bucket) (rows_of c) (closed_rows n span (c + span) rows_of)
        (above h c (rows_of c) lt (own c)) (closed-later n h (c + span) (omega arith))
    where
      above : (h c : ℕ) (xs : List Stat) → h < c → InBucket c xs → All (λ r. h < r.bucket) xs
      above h c [] lt e = tt
      above h c (x ∷ xs) lt (e, h') = (omega arith, above h c xs lt h')

  closed-keep :
      (n k b : ℕ)
      → k < n
      → keep (λ r. r.bucket == b + k * span) (closed_rows n span b rows_of) ≡ rows_of (b + k * span)
  unfolding closed_rows
  closed-keep zero k b lt = absurd (omega arith)
  closed-keep (suc n) zero b lt =
      let h : b + 0 * span ≡ b = omega arith in
      rw h (
        keep-append (λ r. r.bucket == b) (rows_of b) (closed_rows n span (b + span) rows_of)
        ∙ ap₂ (◌++◌) (keep_own b (rows_of b) (own b)) (
            keep_later b (closed_rows n span (b + span) rows_of)
              (closed-later n b (b + span) (omega arith)))
        ∙ append-nil (rows_of b))
  closed-keep (suc n) (suc k) b lt =
      let h : b + suc k * span ≡ b + span + k * span = omega arith in
      rw h (
        keep-append (λ r. r.bucket == b + span + k * span) (rows_of b)
          (closed_rows n span (b + span) rows_of)
        ∙ ap₂ (◌++◌)
            (keep_older (b + span + k * span) (rows_of b)
              (InBucket-before b (b + span + k * span) (rows_of b) (omega arith) (own b)))
            (closed-keep n k (b + span) (omega arith)))

hourly-InBucket : (reqs : List Request) (b : ℕ) → InBucket b (hourly_rows reqs b 3600)
unfolding hourly_rows hourly_stat
hourly-InBucket reqs b =
    go (group_rows new_acc add_request request_key (keep (λ r. in_bucket b 3600 r.ts) reqs) [])
  where
    go : (gs : List (Key × Acc)) → InBucket b (map (hourly_stat b) gs)
    go [] = tt
    go (g ∷ gs) = (refl, go gs)

max_bucket-older :
    (table : List Stat) (b : ℕ) → max_bucket table < b → All (λ r. r.bucket < b) table
unfolding max_bucket
max_bucket-older [] b lt = tt
max_bucket-older (s ∷ table) b lt = (ground arith, max_bucket-older table b (ground arith))

min_of-below :
    (x : ℕ) (reqs : List Request) → x ≤ min_of (map (λ r. r.ts) reqs) → All (λ r. x ≤ r.ts) reqs
unfolding min_of
min_of-below x [] le = tt
min_of-below x (r ∷ []) le = (le, tt)
min_of-below x (r ∷ q ∷ reqs) le = (ground arith, min_of-below x (q ∷ reqs) (ground arith))

-- The requests of the hour that starts at `h`.
abbrev pub in_hour : ℕ → List Request → List Request
in_hour h = keep λ r. in_bucket h 3600 r.ts

none_in_hour : (h : ℕ) (reqs : List Request) → All (λ r. h + 3600 ≤ r.ts) reqs → in_hour h reqs ≡ []
none_in_hour h [] a = refl
none_in_hour h (r ∷ reqs) (le, a) = ground (arith, none_in_hour h reqs a)

-- The requests that the rows of the hour account for.
abbrev pub counted : ℕ → List Stat → ℕ
counted h table = total (λ s. s.requests) (keep (λ s. s.bucket == h) table)

module _ (reqs : List Request) where
  rows_of : ℕ → List Stat
  rows_of b = hourly_rows reqs b 3600

  rows-Distinct : (b : ℕ) → DistinctKeys (stat_keys (rows_of b))
  unfolding rows_of
  rows-Distinct b = (hourly_rows-total reqs b 3600).0

  rows-own : (b : ℕ) → InBucket b (rows_of b)
  unfolding rows_of
  rows-own b = hourly-InBucket reqs b

  -- Counted after the loop, wherever the hour stands.
  counted_closed :
      (first h n : ℕ) (table : List Stat)
      → All (λ r. r.bucket < h) table
      → (h < first → in_hour h reqs ≡ [])
      → (first ≤ h → (k : ℕ) × (h ≡ first + k * 3600) × (k < n))
      → counted h (table ++ closed_rows n 3600 first rows_of) ≡ length (in_hour h reqs)
  unfolding total
  counted_closed first h n table old early late =
      let rest = closed_rows n 3600 first rows_of in
      let split = keep-append (λ r. r.bucket == h) table rest in
      let gone = keep_older h table old in
      ap (total (λ s. s.requests)) (split ∙ ap (λ xs. xs ++ keep (λ r. r.bucket == h) rest) gone)
      ∙ elim (Bool-cases (ltb h first)) [
        | inl y ↦
            let lt : h < first = ground arith in
            ap (total (λ s. s.requests)) (
              keep_later h rest
                (closed-later rows_of rows-Distinct rows-own 3600 (omega arith) 0 n h first lt))
            ∙ ap length (sym (early lt))
        | inr z ↦
            let (k, e, lt) = late (ground arith) in
            rw e (
              ap (total (λ s. s.requests))
                (closed-keep rows_of rows-Distinct rows-own 3600 (omega arith) 0 n k first lt)
              ∙ unfold rows_of in (hourly_rows-total reqs (first + k * 3600) 3600).1)
      ]

oldest_late :
    (reqs : List Request)
    → All (λ r. 3600 ≤ r.ts) reqs
    → (reqs ≡ []) ⊎ (3600 ≤ min_of (map (λ r. r.ts) reqs))
unfolding min_of
oldest_late [] a = inl refl
oldest_late (r ∷ []) (le, a) = inr le
oldest_late (r ∷ q ∷ reqs) (le, a) = elim (oldest_late (q ∷ reqs) a) [
  | inl e ↦ absurd (cc)
  | inr late ↦ inr (ground (arith, late))
]

first_late :
    (reqs : List Request)
    → All (λ r. 3600 ≤ r.ts) reqs
    → let oldest = min_of (map (λ r. r.ts) reqs) in
      (oldest == 0) ≡ false → 0 < oldest - oldest % 3600
unfolding min_of
first_late reqs later y = elim (oldest_late reqs later) [
  | inl e ↦ absurd (cc (subst (λ rs. (min_of (map (λ r. r.ts) rs) == 0) ≡ false) e y))
  | inr late ↦ omega (arith, late)
]

-- The loop from `first`, run to the open hour `current`.
loop_counted :
    (reqs : List Request) (current first h : ℕ) (table : List Stat)
    → All (λ r. r.bucket < first) table
    → All (λ r. r.bucket < h) table
    → first % 3600 ≡ 0
    → h % 3600 ≡ 0
    → h + 3600 ≤ current
    → (h < first → in_hour h reqs ≡ [])
    → counted h (
        catchup_loop
          ((current - first) / 3600 + 1)
          3600
          current
          first
          (λ b. hourly_rows reqs b 3600)
          table)
      ≡ length (in_hour h reqs)
unfolding rows_of
loop_counted reqs current first h table old older aligned hour closed early =
    let n = (current - first) / 3600 in
    let fuel : n + 1 ≡ suc n = omega arith in
    ap (counted h) (
      ap (λ f. catchup_loop f 3600 current first (rows_of reqs) table) fuel
      ∙ catchup_loop-closed (rows_of reqs) (rows-Distinct reqs) (rows-own reqs) 3600 (omega arith)
          current n first table (λ z. omega arith) (omega arith) old)
    ∙ counted_closed reqs first h n table older early
        (λ le. ((h - first) / 3600, omega arith, omega arith))

-- At a time `now`, with no request in the first hour after the epoch and the last aggregated row at
-- the start of an hour: after the catch-up, for every hour behind that row and closed by now, the
-- rows of the hour account for exactly the requests in it.
pub aggregate_hourly_catchup-counted :
    (now h : ℕ) (reqs : List Request) (table : List Stat)
    → All (λ r. 3600 ≤ r.ts) reqs
    → max_bucket table % 3600 ≡ 0
    → h % 3600 ≡ 0
    → max_bucket table < h
    → h + 3600 ≤ now
    → counted h (aggregate_hourly_catchup now reqs table) ≡ length (in_hour h reqs)
unfolding aggregate_hourly_catchup catchup total
aggregate_hourly_catchup-counted now h reqs table later aligned hour behind closed =
    let last = max_bucket table in
    let oldest = min_of (map (λ r. r.ts) reqs) in
    let current = now - now % 3600 in
    let older = max_bucket-older table h behind in
    elim (Bool-cases (last == 0)) [
      | inl zero_last ↦ elim (Bool-cases (oldest == 0)) [
        | inl none_yet ↦
            rw (zero_last, none_yet)
              (elim (oldest_late reqs later) [
                | inl e ↦ ap (total (λ s. s.requests)) (keep_older h table older) ∙ rw e refl
                | inr late ↦ absurd (ground (arith, late))
              ])
        | inr some_yet ↦
            rw (zero_last, some_yet)
              (loop_counted reqs current (oldest - oldest % 3600) h table
                (max_bucket-older table (oldest - oldest % 3600)
                  (omega (arith, first_late reqs later some_yet, (==_iff last 0).0 zero_last)))
                older (omega arith) hour (omega arith)
                (λ lt. none_in_hour h reqs (min_of-below (h + 3600) reqs (omega arith))))
      ]
      | inr some_last ↦ rw some_last (
          loop_counted reqs current (last + 3600) h table
            (max_bucket-older table (last + 3600) (omega arith)) older (omega arith) hour
            (omega arith) (λ lt. absurd (omega arith)))
    ]
