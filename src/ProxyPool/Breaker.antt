-- ===== src/ProxyPool/Breaker.antt =====
-- The circuit breaker of a proxy, and the agreement of the cache with the table.
use gemini_web2api_go_browse.Prelude.{
  ℕ, ◌+◌, ◌-◌, ◌*◌, ◌≤◌, ◌<◌, ◌≡◌, ◌≢◌, refl, subst, Bool, true, false, ◌&&◌, List, [], ◌∷◌, none,
  some, arith, ltb, leb, length, Text, All,
}
use gemini_web2api_go_browse.ProxyPool.{
  Proxy, Pool, proxy_usable, find_proxy, with_result, update_rows, update_first,
  record_proxy_result, load_proxies,
}

find-update_first :
    (i : ℕ) (f : Proxy → Proxy) (ps : List Proxy)
    → ((p : Proxy) → (f p).id ≡ p.id)
    → find_proxy i (update_first i f ps)
      ≡ (elim (find_proxy i ps) [ none ↦ none | some p ↦ some (f p) ])
unfolding find_proxy update_first
find-update_first i f [] h = refl
find-update_first i f (p ∷ ps) h = ground (arith, find-update_first i f ps h, h p)

-- The failures of one proxy at the given times, as recordProxyResult writes them.
pub record_failures : ℕ → Text → List ℕ → Pool → Pool
record_failures i error [] p = p
record_failures i error (t ∷ ts) p =
    record_failures i error ts (record_proxy_result true t i false error p)

-- The last of the times, or `t` if there is none.
abbrev pub last_time : ℕ → List ℕ → ℕ
last_time t [] = t
last_time t (u ∷ us) = last_time u us

with_failures : Text → List ℕ → Proxy → Proxy
with_failures error [] p = p
with_failures error (t ∷ ts) p = with_failures error ts (with_result t false error p)

find-record_failures :
    (i : ℕ) (error : Text) (ts : List ℕ) (pool : Pool) (p : Proxy)
    → 0 < i
    → find_proxy i pool.cache ≡ some p
    → find_proxy i (record_failures i error ts pool).cache ≡ some (with_failures error ts p)
unfolding record_failures with_failures record_proxy_result
find-record_failures i error [] pool p h e = e
find-record_failures i error (t ∷ ts) pool p h e =
    find-record_failures i error ts _ _ h
      (ground (arith, find-update_first i (with_result t false error) pool.cache (λ q. refl)))

with_failures_lem :
    (error : Text) (t : ℕ) (ts : List ℕ) (p : Proxy)
    → ((with_failures error (t ∷ ts) p).fail_count ≡ p.fail_count + length (t ∷ ts))
      × ((with_failures error (t ∷ ts) p).last_used ≡ last_time t ts)
      × ((with_failures error (t ∷ ts) p).enabled ≡ p.enabled)
unfolding with_failures
with_failures_lem error t [] p = (omega arith, refl, refl)
with_failures_lem error t (u ∷ us) p =
    ground (arith, with_failures_lem error u us (with_result t false error p))

-- An enabled proxy of the cache, after five failures in a row or more with none or more before, is
-- usable at a time `now` exactly when the cooldown is on and has passed since the last failure;
-- and one success makes it usable again at once.
pub breaker :
    (i : ℕ) (error : Text) (t : ℕ) (ts : List ℕ) (pool : Pool) (p : Proxy) (now cooldown : ℕ)
    → 0 < i
    → find_proxy i pool.cache ≡ some p
    → p.enabled ≡ true
    → 5 ≤ length (t ∷ ts)
    → let broken = record_failures i error (t ∷ ts) pool in
      (q : Proxy) × (find_proxy i broken.cache ≡ some q)
      × (proxy_usable q now cooldown
          ≡ (ltb 0 cooldown && leb (cooldown * 60) (now - last_time t ts)))
      × (r : Proxy) × (find_proxy i (record_proxy_result true now i true [] broken).cache ≡ some r)
      × (proxy_usable r now cooldown ≡ true)
unfolding proxy_usable record_proxy_result
breaker i error t ts pool p now cooldown h e on many =
    let q = with_failures error (t ∷ ts) p in
    let found = find-record_failures i error (t ∷ ts) pool p h e in
    let facts = with_failures_lem error t ts p in
    (
      q,
      found,
      ground (arith, facts),
      with_result now true [] q,
      ground (
        arith,
        found,
        find-update_first i (with_result now true []) (record_failures i error (t ∷ ts) pool).cache
            (λ q. refl),
      ),
      ground (arith, facts),
    )

-- No two rows of the list have one id.
abbrev pub DistinctIds : List Proxy → Type 0
DistinctIds [] = Unit {0}
DistinctIds (p ∷ ps) = All (λ q. q.id ≢ p.id) ps × DistinctIds ps

update_rows_absent :
    (i : ℕ) (f : Proxy → Proxy) (ps : List Proxy) → All (λ q. q.id ≢ i) ps → update_rows i f ps ≡ ps
unfolding update_rows
update_rows_absent i f [] h = refl
update_rows_absent i f (p ∷ ps) (hp, hs) = ground (arith, update_rows_absent i f ps hs)

update_rows-first :
    (i : ℕ) (f : Proxy → Proxy) (ps : List Proxy)
    → DistinctIds ps
    → update_rows i f ps ≡ update_first i f ps
unfolding update_rows update_first
update_rows-first i f [] h = refl
update_rows-first i f (p ∷ ps) (hp, hs) = ground (
  arith,
  update_rows-first i f ps hs,
  λ (e : p.id ≡ i). update_rows_absent i f ps (subst (λ k. All (λ q. q.id ≢ k) ps) e hp),
)

-- Where the cache shows the table and ids are distinct, a result that the database takes leaves
-- the cache showing the table: a re-read would change nothing.
pub record-load :
    (now i : ℕ) (success : Bool) (error : Text) (p : Pool)
    → p.cache ≡ p.table
    → DistinctIds p.table
    → let p' = record_proxy_result true now i success error p in load_proxies true p' ≡ p'
unfolding record_proxy_result load_proxies
record-load now i success error p same distinct =
    ground (arith, update_rows-first i (with_result now success error) p.table distinct)
