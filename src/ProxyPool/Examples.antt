-- ===== src/ProxyPool/Examples.antt =====
-- Concrete choices from a pool of two proxies, and the breaker of one of them.
use gemini_web2api_go_browse.Prelude.{
  ◌-◌, ◌*◌, ◌<◌, ◌≡◌, ◌≢◌, refl, true, false, ◌&&◌, [], ◌∷◌, none, some, arith, codes, ltb, leb, In,
}
use gemini_web2api_go_browse.RateLimit.{get_slot}
use gemini_web2api_go_browse.RateLimit.Verdict.{verdict}
use gemini_web2api_go_browse.ProxyPool.{
  Proxy, Pool, Settings, no_proxy, find_proxy, proxy_usable, pick_proxy_preferring, acquire_slot,
  ok, record_proxy_result,
}
use gemini_web2api_go_browse.ProxyPool.Pick.{pick_proxy_lem}
use gemini_web2api_go_browse.ProxyPool.Breaker.{breaker, record_failures, last_time}
use gemini_web2api_go_browse.ProxyPool.Seeds.{Seeded, sync_seeded_proxy, sync_seeded_proxy-twice}
use gemini_web2api_go_browse.ProxyPool.Direct.{acquire_slot_hides}

abbrev proxy_a : Proxy
proxy_a = record no_proxy {
  id = 1;
  name = codes "a";
  url = codes "http://a";
  enabled = true;
  weight = 1;
}

abbrev proxy_b : Proxy
proxy_b = record no_proxy {
  id = 2;
  name = codes "b";
  url = codes "http://b";
  enabled = true;
  weight = 1;
}

abbrev pool : Pool
pool = record { table = proxy_a ∷ proxy_b ∷ []; cache = proxy_a ∷ proxy_b ∷ []; cursor = 3 }

abbrev settings : Settings
settings = record {
  limits = record { per_ip_concurrent = 1; per_ip_rpm = 10; per_ip_rph = 100 };
  proxy_cooldown_min = 5;
  fallback_direct = false;
}

pick_proxy_lem_example :
    ((q : Proxy)
      → (pick_proxy_preferring settings 1000 0 pool []).chosen ≡ some q
      → In q pool.cache
        × (proxy_usable q 1000 5 ≡ true)
        × (verdict settings.limits 1000 [] q.id ≡ none))
    × ((pick_proxy_preferring settings 1000 0 pool []).chosen ≡ none
        → (q : Proxy) → In q pool.cache
        → proxy_usable q 1000 5 ≡ true
        → verdict settings.limits 1000 [] q.id ≢ none)
pick_proxy_lem_example = pick_proxy_lem settings 1000 0 pool []

breaker_example :
    let broken = record_failures 1 (codes "EOF") (10 ∷ 20 ∷ 30 ∷ 40 ∷ 50 ∷ []) pool in
    (q : Proxy) × (find_proxy 1 broken.cache ≡ some q)
    × (proxy_usable q 400 5
        ≡ (ltb 0 5 && leb (5 * 60) (400 - last_time 10 (20 ∷ 30 ∷ 40 ∷ 50 ∷ []))))
    × (r : Proxy) × (find_proxy 1 (record_proxy_result true 400 1 true [] broken).cache ≡ some r)
    × (proxy_usable r 400 5 ≡ true)
unfolding find_proxy
breaker_example =
    breaker 1 (codes "EOF") 10 (20 ∷ 30 ∷ 40 ∷ 50 ∷ []) pool proxy_a 400 5 (omega arith) refl refl
      (omega arith)

acquire_slot_hides_example :
    let (r, m', p') = acquire_slot settings 1000 0 pool [] in
    ((q : Proxy) → r ≡ ok q → (0 < q.id) × In q pool.cache × (proxy_usable q 1000 5 ≡ true))
    × (get_slot 0 m' ≡ get_slot 0 [])
acquire_slot_hides_example =
    acquire_slot_hides settings 1000 0 pool [] refl refl ((omega arith), ((omega arith), tt))

abbrev fresh_start : Seeded
fresh_start = record {
  pool = pool;
  legacy_done = false;
  seeded_url = codes "http://a";
  seeded_id = some 1;
}

sync_seeded_proxy-twice_example :
    sync_seeded_proxy 8 60
      (codes "start")
      (codes "http://c")
      (sync_seeded_proxy 7 50 (codes "start") (codes "http://c") fresh_start)
    ≡ sync_seeded_proxy 7 50 (codes "start") (codes "http://c") fresh_start
sync_seeded_proxy-twice_example =
    sync_seeded_proxy-twice 7 8 50 60 (codes "start") (codes "http://c") fresh_start
