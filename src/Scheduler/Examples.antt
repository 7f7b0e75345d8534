-- ===== src/Scheduler/Examples.antt =====
-- Concrete requests and their rows.
use gemini_web2api_go_browse.Prelude.{
  ℕ, ◌+◌, ◌*◌, ◌/◌, ◌≤◌, ◌≡◌, refl, List, [], ◌∷◌, none, arith, codes, length,
}
use gemini_web2api_go_browse.Scheduler.{
  Request, hourly_rows, Key, percentiles, aggregate_hourly_catchup, max_bucket,
}
use gemini_web2api_go_browse.Scheduler.Groups.{
  total, DistinctKeys, stat_keys, succeeds, mine_of, rows_of, hourly_rows-by_key,
}
use gemini_web2api_go_browse.Scheduler.Percentiles.{HasRank, percentiles_lem}
use gemini_web2api_go_browse.Scheduler.Catchup.{counted, in_hour, aggregate_hourly_catchup-counted}

abbrev request : ℕ → ℕ → ℕ → Request
request ts status ms = record {
  ts = ts;
  model = codes "pro";
  proxy_id = none;
  status = status;
  total_ms = ms;
  prompt_tokens = 3;
  output_tokens = 4;
}

abbrev requests : List Request
requests = request 7300 200 80 ∷ request 7400 500 90 ∷ request 11000 200 70 ∷ []

hourly_rows-by_key_example :
    DistinctKeys (stat_keys (hourly_rows requests 7200 3600))
    × ((k : Key)
        → (total (λ s. s.requests) (rows_of requests 7200 3600 k)
            ≡ length (mine_of requests 7200 3600 k))
          × (total (λ s. s.successes) (rows_of requests 7200 3600 k)
              ≡ total succeeds (mine_of requests 7200 3600 k))
          × (total (λ s. s.successes + s.failures) (rows_of requests 7200 3600 k)
              ≡ length (mine_of requests 7200 3600 k))
          × (total (λ s. s.total_ms) (rows_of requests 7200 3600 k)
              ≡ total (λ r. r.total_ms) (mine_of requests 7200 3600 k))
          × (total (λ s. s.prompt_tokens) (rows_of requests 7200 3600 k)
              ≡ total (λ r. r.prompt_tokens) (mine_of requests 7200 3600 k))
          × (total (λ s. s.output_tokens) (rows_of requests 7200 3600 k)
              ≡ total (λ r. r.output_tokens) (mine_of requests 7200 3600 k)))
hourly_rows-by_key_example = hourly_rows-by_key requests 7200 3600

abbrev times : List ℕ
times = 80 ∷ 90 ∷ 70 ∷ []

percentiles_lem_example :
    let n = length times in
    let (p50, p95) = percentiles times in
    HasRank (n * 50 / 100) p50 times × HasRank (n * 95 / 100) p95 times × (p50 ≤ p95)
percentiles_lem_example = percentiles_lem 80 (90 ∷ 70 ∷ [])

aggregate_hourly_catchup-counted_example :
    counted 7200 (aggregate_hourly_catchup 20000 requests []) ≡ length (in_hour 7200 requests)
unfolding max_bucket
aggregate_hourly_catchup-counted_example =
    aggregate_hourly_catchup-counted 20000 7200 requests []
      (omega arith, (omega arith, (omega arith, tt))) refl (omega arith) (omega arith) (omega arith)
