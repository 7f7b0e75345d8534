-- ===== src/Scheduler/Groups.antt =====
-- aggregateBucket: one row for each model and proxy, and nothing lost or counted twice.
use gemini_web2api_go_browse.Prelude.{
  ℕ, ◌+◌, ◌≡◌, refl, sym, ap, ap₂, subst, ◌∙◌, true, false, List, [], ◌∷◌, arith, ◌==◌,
  if◌then◌else◌, length, keep, map, Bool-cases, inl, inr, All, Text, text_eq_iff,
}
use gemini_web2api_go_browse.Scheduler.{
  Request, Stat, Key, key_eq, Acc, new_acc, add_request, DailyAcc, add_to, group_rows, hourly_rows,
  hourly_stat, daily_stat, in_bucket, request_key, stat_key,
}

-- The total of a measure over a list.
unfoldable pub total {ℓ} : {R : Type ℓ} → (R → ℕ) → List R → ℕ
total f [] = 0
total f (r ∷ rs) = f r + total f rs

total-map :
    {R S : Type 0} (f : S → ℕ) (g : R → S) (rs : List R)
    → total f (map g rs) ≡ total (λ r. f (g r)) rs
unfolding total
total-map f g [] = refl
total-map f g (r ∷ rs) = ap (λ t. f (g r) + t) (total-map f g rs)

module _ {A R : Type 0} (new : A) (add : A → R → A) (measure : A → ℕ) (part : R → ℕ)
    (none_yet : measure new ≡ 0)
    (adds : (a : A) (r : R) → measure (add a r) ≡ measure a + part r) where
  add_to-total :
      (k : Key) (r : R) (groups : List (Key × A))
      → total (λ g. measure g.1) (add_to new add k r groups)
        ≡ total (λ g. measure g.1) groups + part r
  unfolding add_to total
  add_to-total k r [] = omega (arith, adds new r, none_yet)
  add_to-total k r ((j, a) ∷ groups) = elim (Bool-cases (key_eq j k)) [
    | inl y ↦ rw y (omega (arith, adds a r))
    | inr n ↦ rw n (omega (arith, add_to-total k r groups))
  ]

  group_rows-total :
      (key_of : R → Key) (rs : List R) (groups : List (Key × A))
      → total (λ g. measure g.1) (group_rows new add key_of rs groups)
        ≡ total (λ g. measure g.1) groups + total part rs
  unfolding group_rows total
  group_rows-total key_of [] groups = omega arith
  group_rows-total key_of (r ∷ rs) groups = omega (
    arith,
    group_rows-total key_of rs (add_to new add (key_of r) r groups),
    add_to-total (key_of r) r groups,
  )

-- No two groups, and no two rows, share a key.
abbrev pub DistinctKeys : List Key → Type 0
DistinctKeys [] = Unit {0}
DistinctKeys (k ∷ ks) = All (λ j. key_eq k j ≡ false) ks × DistinctKeys ks

keys {ℓ} : {A : Type ℓ} → List (Key × A) → List Key
keys [] = []
keys ((k, a) ∷ groups) = k ∷ keys groups

key_eq-true : (j k : Key) → key_eq j k ≡ true → j ≡ k
key_eq-true (m, p) (n, q) y =
    let names : m ≡ n = (text_eq_iff m n).0 (ground arith) in
    let ids : p ≡ q = ground arith in ap₂ (λ (a : Text) (b : ℕ). (a, b)) names ids

add_to-apart :
    {A R : Type 0} (new : A) (add : A → R → A) (j k : Key) (r : R) (groups : List (Key × A))
    → key_eq j k ≡ false
    → All (λ i. key_eq j i ≡ false) (keys groups)
    → All (λ i. key_eq j i ≡ false) (keys (add_to new add k r groups))
unfolding add_to keys
add_to-apart new add j k r [] n h = (n, tt)
add_to-apart new add j k r ((i, a) ∷ groups) n (m, h) = elim (Bool-cases (key_eq i k)) [
  | inl y ↦ rw y (m, h)
  | inr z ↦ rw z (m, add_to-apart new add j k r groups n h)
]

add_to-Distinct :
    {A R : Type 0} (new : A) (add : A → R → A) (k : Key) (r : R) (groups : List (Key × A))
    → DistinctKeys (keys groups)
    → DistinctKeys (keys (add_to new add k r groups))
unfolding add_to keys
add_to-Distinct new add k r [] h = (tt, tt)
add_to-Distinct new add k r ((j, a) ∷ groups) (f, h) = elim (Bool-cases (key_eq j k)) [
  | inl y ↦ rw y (f, h)
  | inr n ↦ rw n (add_to-apart new add j k r groups n f, add_to-Distinct new add k r groups h)
]

group_rows-Distinct :
    {A R : Type 0} (new : A) (add : A → R → A) (key_of : R → Key) (rs : List R)
    (groups : List (Key × A))
    → DistinctKeys (keys groups)
    → DistinctKeys (keys (group_rows new add key_of rs groups))
unfolding group_rows
group_rows-Distinct new add key_of [] groups h = h
group_rows-Distinct new add key_of (r ∷ rs) groups h =
    group_rows-Distinct new add key_of rs (add_to new add (key_of r) r groups)
      (add_to-Distinct new add (key_of r) r groups h)

-- A number that counts only under one key.
abbrev under : Key → Key → ℕ → ℕ
under k j n = if key_eq j k then n else 0

under-add : (k j : Key) (m n : ℕ) → under k j (m + n) ≡ under k j m + under k j n
under-add k j m n = ground arith

total-keep :
    {R : Type 0} (f : R → ℕ) (k : Key) (key_of : R → Key) (rs : List R)
    → total f (keep (λ r. key_eq (key_of r) k) rs) ≡ total (λ r. under k (key_of r) (f r)) rs
unfolding total
total-keep f k key_of [] = refl
total-keep f k key_of (r ∷ rs) = elim (Bool-cases (key_eq (key_of r) k)) [
  | inl y ↦ rw y (ap (λ t. f r + t) (total-keep f k key_of rs))
  | inr n ↦ rw n (omega (arith, total-keep f k key_of rs))
]

module _ {A R : Type 0} (new : A) (add : A → R → A) (measure : A → ℕ) (part : R → ℕ)
    (none_yet : measure new ≡ 0) (adds : (a : A) (r : R) → measure (add a r) ≡ measure a + part r)
    (k : Key) where
  add_to-under :
      (j : Key) (r : R) (groups : List (Key × A))
      → total (λ g. under k g.0 (measure g.1)) (add_to new add j r groups)
        ≡ total (λ g. under k g.0 (measure g.1)) groups + under k j (part r)
  unfolding add_to total
  add_to-under j r [] =
      let one : under k j (measure (add new r)) ≡ under k j (part r) =
        ap (under k j) (omega (arith, adds new r, none_yet)) in
      omega (arith, one)
  add_to-under j r ((i, a) ∷ groups) = elim (Bool-cases (key_eq i j)) [
    | inl y ↦
        let more : under k i (measure (add a r)) ≡ under k i (measure a) + under k j (part r) =
          ap (under k i) (adds a r)
          ∙ under-add k i (measure a) (part r)
          ∙ ap (λ l. under k i (measure a) + under k l (part r)) (key_eq-true i j y) in
        rw y (omega (arith, more))
    | inr n ↦ rw n (omega (arith, add_to-under j r groups))
  ]

  group_rows-under :
      (key_of : R → Key) (rs : List R) (groups : List (Key × A))
      → total (λ g. under k g.0 (measure g.1)) (group_rows new add key_of rs groups)
        ≡ total (λ g. under k g.0 (measure g.1)) groups
          + total (λ r. under k (key_of r) (part r)) rs
  unfolding group_rows total
  group_rows-under key_of [] groups = omega arith
  group_rows-under key_of (r ∷ rs) groups = omega (
    arith,
    group_rows-under key_of rs (add_to new add (key_of r) r groups),
    add_to-under (key_of r) r groups,
  )

-- The keys of rows.
abbrev pub stat_keys : List Stat → List Key
stat_keys = map stat_key

hourly-keys :
    (start : ℕ) (groups : List (Key × Acc))
    → stat_keys (map (hourly_stat start) groups) ≡ keys groups
unfolding keys hourly_stat
hourly-keys start [] = refl
hourly-keys start ((k, a) ∷ groups) = ap (◌∷◌ k) (hourly-keys start groups)

daily-keys :
    (start : ℕ) (groups : List (Key × DailyAcc))
    → stat_keys (map (daily_stat start) groups) ≡ keys groups
unfolding keys daily_stat
daily-keys start [] = refl
daily-keys start ((k, a) ∷ groups) = ap (◌∷◌ k) (daily-keys start groups)

total-cong :
    {R : Type 0} (f g : R → ℕ) → ((r : R) → f r ≡ g r) → (rs : List R) → total f rs ≡ total g rs
unfolding total
total-cong f g h [] = refl
total-cong f g h (r ∷ rs) = ap₂ (λ (m n : ℕ). m + n) (h r) (total-cong f g h rs)

total_ones : {R : Type 0} (rs : List R) → total (λ r. 1) rs ≡ length rs
unfolding total
total_ones [] = refl
total_ones (r ∷ rs) = omega (arith, total_ones rs)

-- Of the statuses of requests, those that are 200.
abbrev pub succeeds : Request → ℕ
succeeds r = if r.status == 200 then 1 else 0

module _ (reqs : List Request) (start span : ℕ) where
  abbrev pub mine : List Request
  mine = keep (λ r. in_bucket start span r.ts) reqs

  hourly-total :
      (f : Stat → ℕ) (measure : Acc → ℕ) (part : Request → ℕ)
      → ((k : Key) (a : Acc) → f (hourly_stat start (k, a)) ≡ measure a)
      → measure new_acc ≡ 0
      → ((a : Acc) (r : Request) → measure (add_request a r) ≡ measure a + part r)
      → total f (hourly_rows reqs start span) ≡ total part mine
  unfolding hourly_rows
  hourly-total f measure part reads none_yet adds =
      total-map f (hourly_stat start) (group_rows new_acc add_request request_key mine [])
      ∙ total-cong _ _ (λ (g : Key × Acc). reads g.0 g.1)
          (group_rows new_acc add_request request_key mine [])
      ∙ group_rows-total new_acc add_request measure part none_yet adds request_key mine []
      ∙ unfold total in omega arith

  -- The totals over all rows.
  pub hourly_rows-total :
      let rows = hourly_rows reqs start span in
      DistinctKeys (stat_keys rows)
      × (total (λ s. s.requests) rows ≡ length mine)
      × (total (λ s. s.successes) rows ≡ total succeeds mine)
      × (total (λ s. s.successes + s.failures) rows ≡ length mine)
      × (total (λ s. s.total_ms) rows ≡ total (λ r. r.total_ms) mine)
      × (total (λ s. s.prompt_tokens) rows ≡ total (λ r. r.prompt_tokens) mine)
      × (total (λ s. s.output_tokens) rows ≡ total (λ r. r.output_tokens) mine)
  unfolding hourly_rows hourly_stat add_request keys
  hourly_rows-total = (
    subst DistinctKeys
        (sym (hourly-keys start (group_rows new_acc add_request request_key mine [])))
        (group_rows-Distinct new_acc add_request request_key mine [] tt),
    hourly-total (λ s. s.requests) (λ a. a.count) (λ r. 1) (λ k a. refl) refl (λ a r. refl)
        ∙ total_ones mine,
    hourly-total (λ s. s.successes) (λ a. a.success) succeeds (λ k a. refl) refl
        (λ a r. ground arith),
    hourly-total (λ s. s.successes + s.failures) (λ a. a.success + a.fail) (λ r. 1) (λ k a. refl)
          refl (λ a r. ground arith)
        ∙ total_ones mine,
    hourly-total (λ s. s.total_ms) (λ a. a.total_ms) (λ r. r.total_ms) (λ k a. refl) refl
        (λ a r. refl),
    hourly-total (λ s. s.prompt_tokens) (λ a. a.prompt_t) (λ r. r.prompt_tokens) (λ k a. refl) refl
        (λ a r. refl),
    hourly-total (λ s. s.output_tokens) (λ a. a.out_t) (λ r. r.output_tokens) (λ k a. refl) refl
        (λ a r. refl),
  )

  -- The requests of the bucket with one model and proxy, and the rows with them.
  abbrev pub mine_of : Key → List Request
  mine_of k = keep (λ r. key_eq (request_key r) k) mine

  abbrev pub rows_of : Key → List Stat
  rows_of k = keep (λ s. key_eq (stat_key s) k) (hourly_rows reqs start span)

  hourly-under :
      (k : Key) (f : Stat → ℕ) (measure : Acc → ℕ) (part : Request → ℕ)
      → ((j : Key) (a : Acc) → f (hourly_stat start (j, a)) ≡ measure a)
      → measure new_acc ≡ 0
      → ((a : Acc) (r : Request) → measure (add_request a r) ≡ measure a + part r)
      → total f (rows_of k) ≡ total part (mine_of k)
  unfolding hourly_rows hourly_stat
  hourly-under k f measure part reads none_yet adds =
      let groups = group_rows new_acc add_request request_key mine [] in
      total-keep f k stat_key (map (hourly_stat start) groups)
      ∙ total-map (λ s. under k (stat_key s) (f s)) (hourly_stat start) groups
      ∙ total-cong _ _ (λ (g : Key × Acc). ap (under k g.0) (reads g.0 g.1)) groups
      ∙ group_rows-under new_acc add_request measure part none_yet adds k request_key mine []
      ∙ (unfold total in omega (arith, total-keep part k request_key mine))

  -- For any requests and any bucket: of the rows that aggregateBucket writes from the requests, no two
  -- have the same model and proxy; and for every model and proxy, the requests, the successes, the
  -- failures, the times and the tokens of its row are those of the bucket's requests with that
  -- model and proxy, none where there is no such request.
  pub hourly_rows-by_key :
      DistinctKeys (stat_keys (hourly_rows reqs start span))
      × ((k : Key)
          → (total (λ s. s.requests) (rows_of k) ≡ length (mine_of k))
            × (total (λ s. s.successes) (rows_of k) ≡ total succeeds (mine_of k))
            × (total (λ s. s.successes + s.failures) (rows_of k) ≡ length (mine_of k))
            × (total (λ s. s.total_ms) (rows_of k) ≡ total (λ r. r.total_ms) (mine_of k))
            × (total (λ s. s.prompt_tokens) (rows_of k) ≡ total (λ r. r.prompt_tokens) (mine_of k))
            × (total (λ s. s.output_tokens) (rows_of k) ≡ total (λ r. r.output_tokens) (mine_of k)))
  unfolding hourly_stat add_request
  hourly_rows-by_key = (
    hourly_rows-total.0,
    (λ k. (
      hourly-under k (λ s. s.requests) (λ a. a.count) (λ r. 1) (λ j a. refl) refl (λ a r. refl)
          ∙ total_ones (mine_of k),
      hourly-under k (λ s. s.successes) (λ a. a.success) succeeds (λ j a. refl) refl
          (λ a r. ground arith),
      hourly-under k (λ s. s.successes + s.failures) (λ a. a.success + a.fail) (λ r. 1)
            (λ j a. refl) refl (λ a r. ground arith)
          ∙ total_ones (mine_of k),
      hourly-under k (λ s. s.total_ms) (λ a. a.total_ms) (λ r. r.total_ms) (λ j a. refl) refl
          (λ a r. refl),
      hourly-under k (λ s. s.prompt_tokens) (λ a. a.prompt_t) (λ r. r.prompt_tokens) (λ j a. refl)
          refl (λ a r. refl),
      hourly-under k (λ s. s.output_tokens) (λ a. a.out_t) (λ r. r.output_tokens) (λ j a. refl) refl
          (λ a r. refl),
    )),
  )
