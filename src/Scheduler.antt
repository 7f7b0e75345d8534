-- ===== src/Scheduler.antt =====
-- internal/app/scheduler.go: the aggregation of requests into hourly and daily rows, and the
-- retention sweep. The tables are lists of rows; the database calls succeed. `none` as the proxy of a
-- request is NULL. A group is made where its key is first seen; the source ranges over its map in any
-- order.
pub mod Percentiles
pub mod Groups
pub mod Upsert
pub mod Catchup
mod Examples
use gemini_web2api_go_browse.Prelude.{
  ℕ, zero, suc, ◌+◌, ◌-◌, ◌*◌, ◌/◌, ◌%◌, Bool, true, false, not, ◌&&◌, List, [], ◌∷◌, ◌++◌, Option,
  none, some, ltb, leb, ◌==◌, if◌then◌else◌, length, get_elem?, keep, map, Text, text_eq,
}

pub record Request : Type 0 where
  pub ts : ℕ
  pub model : Text
  pub proxy_id : Option ℕ
  pub status : ℕ
  pub total_ms : ℕ
  pub prompt_tokens : ℕ
  pub output_tokens : ℕ

-- A row of stats_hourly or stats_daily.
pub record Stat : Type 0 where
  pub bucket : ℕ
  pub model : Text
  pub proxy_id : ℕ
  pub requests : ℕ
  pub successes : ℕ
  pub failures : ℕ
  pub total_ms : ℕ
  pub p50_ms : ℕ
  pub p95_ms : ℕ
  pub prompt_tokens : ℕ
  pub output_tokens : ℕ

-- The key of a group: the model and the proxy.
abbrev pub Key : Type 0
Key = Text × ℕ

abbrev pub key_eq : Key → Key → Bool
key_eq (m, p) (n, q) = text_eq m n && p == q

-- COALESCE(proxy_id, 0)
abbrev pub coalesce : Option ℕ → ℕ
coalesce none = 0
coalesce (some p) = p

pub record Acc : Type 0 where
  pub count : ℕ
  pub success : ℕ
  pub fail : ℕ
  pub total_ms : ℕ
  pub prompt_t : ℕ
  pub out_t : ℕ
  pub latencies : List ℕ

abbrev pub new_acc : Acc
new_acc = record {
  count = 0;
  success = 0;
  fail = 0;
  total_ms = 0;
  prompt_t = 0;
  out_t = 0;
  latencies = [];
}

pub add_request : Acc → Request → Acc
add_request a r = record {
  count = a.count + 1;
  success = if r.status == 200 then a.success + 1 else a.success;
  fail = if r.status == 200 then a.fail else a.fail + 1;
  total_ms = a.total_ms + r.total_ms;
  prompt_t = a.prompt_t + r.prompt_tokens;
  out_t = a.out_t + r.output_tokens;
  latencies = a.latencies ++ r.total_ms ∷ [];
}

-- dailyAcc: the sums of the hourly percentiles that are not 0, and how many there are.
pub record DailyAcc : Type 0 where
  pub count : ℕ
  pub success : ℕ
  pub fail : ℕ
  pub total_ms : ℕ
  pub prompt_t : ℕ
  pub out_t : ℕ
  pub p50_sum : ℕ
  pub p50_n : ℕ
  pub p95_sum : ℕ
  pub p95_n : ℕ

abbrev pub new_daily_acc : DailyAcc
new_daily_acc = record {
  count = 0;
  success = 0;
  fail = 0;
  total_ms = 0;
  prompt_t = 0;
  out_t = 0;
  p50_sum = 0;
  p50_n = 0;
  p95_sum = 0;
  p95_n = 0;
}

pub add_hour : DailyAcc → Stat → DailyAcc
add_hour a r = record {
  count = a.count + r.requests;
  success = a.success + r.successes;
  fail = a.fail + r.failures;
  total_ms = a.total_ms + r.total_ms;
  prompt_t = a.prompt_t + r.prompt_tokens;
  out_t = a.out_t + r.output_tokens;
  p50_sum = a.p50_sum + r.p50_ms;
  p50_n = if ltb 0 r.p50_ms then a.p50_n + 1 else a.p50_n;
  p95_sum = a.p95_sum + r.p95_ms;
  p95_n = if ltb 0 r.p95_ms then a.p95_n + 1 else a.p95_n;
}

-- `groups[k]`, made from `new` when it is missing, with one more row added.
pub add_to {ℓ κ} :
    {A : Type ℓ} {R : Type κ} → A → (A → R → A) → Key → R → List (Key × A) → List (Key × A)
add_to new add k r [] = (k, add new r) ∷ []
add_to new add k r ((j, a) ∷ groups) =
    if key_eq j k then (j, add a r) ∷ groups else (j, a) ∷ add_to new add k r groups

pub group_rows {ℓ κ} :
    {A : Type ℓ} {R : Type κ}
    → A
    → (A → R → A)
    → (R → Key)
    → List R
    → List (Key × A)
    → List (Key × A)
unfolding add_to
group_rows new add key_of [] groups = groups
group_rows new add key_of (r ∷ rs) groups =
    group_rows new add key_of rs (add_to new add (key_of r) r groups)

insert_sorted : ℕ → List ℕ → List ℕ
insert_sorted x [] = x ∷ []
insert_sorted x (y ∷ ys) = if leb x y then x ∷ y ∷ ys else y ∷ insert_sorted x ys

-- sort.Ints
pub sort_ints : List ℕ → List ℕ
unfolding insert_sorted
sort_ints [] = []
sort_ints (x ∷ xs) = insert_sorted x (sort_ints xs)

-- An index of a slice; both that percentiles reads are in range.
abbrev pub at : List ℕ → ℕ → ℕ
at [] k = 0
at (x ∷ xs) zero = x
at (x ∷ xs) (suc k) = at xs k

pub percentiles : List ℕ → ℕ × ℕ
unfolding sort_ints
percentiles [] = (0, 0)
percentiles (x ∷ xs) =
    let s = sort_ints (x ∷ xs) in
    let n = length (x ∷ xs) in
    let p95idx = n * 95 / 100 in
    (at s (n * 50 / 100), at s (if leb n p95idx then n - 1 else p95idx))

abbrev pub request_key : Request → Key
request_key r = (r.model, coalesce r.proxy_id)

abbrev pub stat_key : Stat → Key
stat_key s = (s.model, s.proxy_id)

hourly_stat : ℕ → Key × Acc → Stat
unfolding percentiles
hourly_stat start (k, a) =
    let (p50, p95) = percentiles a.latencies in
    record {
      bucket = start;
      model = k.0;
      proxy_id = k.1;
      requests = a.count;
      successes = a.success;
      failures = a.fail;
      total_ms = a.total_ms;
      p50_ms = p50;
      p95_ms = p95;
      prompt_tokens = a.prompt_t;
      output_tokens = a.out_t;
    }

average : ℕ → ℕ → ℕ
average sum n = if ltb 0 n then sum / n else 0

daily_stat : ℕ → Key × DailyAcc → Stat
unfolding average
daily_stat start (k, a) = record {
  bucket = start;
  model = k.0;
  proxy_id = k.1;
  requests = a.count;
  successes = a.success;
  failures = a.fail;
  total_ms = a.total_ms;
  p50_ms = average a.p50_sum a.p50_n;
  p95_ms = average a.p95_sum a.p95_n;
  prompt_tokens = a.prompt_t;
  output_tokens = a.out_t;
}

-- upsert by the key (bucket, model, proxy_id).
abbrev pub same_row : Stat → Stat → Bool
same_row r s = r.bucket == s.bucket && key_eq (stat_key r) (stat_key s)

pub upsert_stat : Stat → List Stat → List Stat
upsert_stat s [] = s ∷ []
upsert_stat s (r ∷ table) = if same_row r s then s ∷ table else r ∷ upsert_stat s table

pub upsert_all : List Stat → List Stat → List Stat
unfolding upsert_stat
upsert_all [] table = table
upsert_all (s ∷ ss) table = upsert_all ss (upsert_stat s table)

-- WHERE x >= start AND x < start + span
abbrev pub in_bucket : ℕ → ℕ → ℕ → Bool
in_bucket start span x = leb start x && ltb x (start + span)

-- The rows that aggregateBucket writes, from the requests or from the hourly rows.
pub hourly_rows : List Request → ℕ → ℕ → List Stat
unfolding hourly_stat group_rows add_request
hourly_rows reqs start span =
    map (hourly_stat start)
      (group_rows new_acc add_request request_key (keep (λ r. in_bucket start span r.ts) reqs) [])

pub daily_rows : List Stat → ℕ → ℕ → List Stat
unfolding daily_stat group_rows add_hour
daily_rows hourly start span = map (daily_stat start) (
    group_rows new_daily_acc add_hour stat_key (keep (λ s. in_bucket start span s.bucket) hourly)
      [])

-- The loop `for b := lastBucket + span; b <= target; b += span`, on fuel. `current` is the start of the
-- open bucket, `target` the bucket before it.
pub catchup_loop : ℕ → ℕ → ℕ → ℕ → (ℕ → List Stat) → List Stat → List Stat
unfolding upsert_all
catchup_loop zero span current b rows_of table = table
catchup_loop (suc f) span current b rows_of table =
    let next = catchup_loop f span current (b + span) rows_of (upsert_all (rows_of b) table) in
    if leb (b + span) current then next else table

pub max_bucket : List Stat → ℕ
max_bucket [] = 0
max_bucket (s ∷ ss) = let m = max_bucket ss in if ltb m s.bucket then s.bucket else m

-- COALESCE(MIN(x), 0)
min_of : List ℕ → ℕ
min_of [] = 0
min_of (x ∷ []) = x
min_of (x ∷ y ∷ ys) = let m = min_of (y ∷ ys) in if ltb x m then x else m

-- Both catch-ups. An empty table starts at the bucket of the oldest time of the source, unless that
-- is 0.
catchup : ℕ → ℕ → List ℕ → (ℕ → List Stat) → List Stat → List Stat
unfolding catchup_loop max_bucket min_of
catchup span now times rows_of table =
    let current = now - now % span in
    let last = max_bucket table in
    let oldest = min_of times in
    let first = if last == 0 then oldest - oldest % span else last + span in
    if last == 0 && oldest == 0
    then table
    else catchup_loop ((current - first) / span + 1) span current first rows_of table

unfoldable pub aggregate_hourly_catchup : ℕ → List Request → List Stat → List Stat
unfolding catchup
aggregate_hourly_catchup now reqs hourly =
    catchup 3600 now (map (λ r. r.ts) reqs) (λ b. hourly_rows reqs b 3600) hourly

unfoldable pub aggregate_daily_catchup : ℕ → List Stat → List Stat → List Stat
unfolding catchup
aggregate_daily_catchup now hourly daily =
    catchup 86400 now (map (λ s. s.bucket) hourly) (λ b. daily_rows hourly b 86400) daily

-- The requests that retentionSweep leaves.
pub retention_sweep : ℕ → ℕ → List Request → List Request
retention_sweep retention_days now reqs =
    if retention_days == 0
    then reqs
    else keep (λ r. not (ltb r.ts (now - retention_days * 86400))) reqs
