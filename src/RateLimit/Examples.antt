-- ===== src/RateLimit/Examples.antt =====
-- Concrete runs of the rate limiter.
use gemini_web2api_go_browse.Prelude.{ℕ, ◌≡◌, ◌+◌, ◌≤◌, ◌<◌, List, [], ◌∷◌, arith}
use gemini_web2api_go_browse.RateLimit.{Limits}
use gemini_web2api_go_browse.RateLimit.Window.{count_within}
use gemini_web2api_go_browse.RateLimit.Trace.{Call, attempt, give_back, run, start, run_bounds}

abbrev limits : Limits
limits = record { per_ip_concurrent = 2; per_ip_rpm = 2; per_ip_rph = 3 }

abbrev calls : List Call
calls = attempt 100 ∷ attempt 110 ∷ give_back ∷ attempt 130 ∷ attempt 165 ∷ []

run_bounds_example :
    (0 < 2 → (a : ℕ) → count_within a (a + 60) (run limits start calls).grants ≤ 2)
    × (0 < 3 → (a : ℕ) → count_within a (a + 3600) (run limits start calls).grants ≤ 3)
    × (0 < 2 → (run limits start calls).held ≤ 2)
    × ((run limits start calls).slot.inflight ≡ (run limits start calls).held)
run_bounds_example =
    run_bounds limits calls (omega arith, (omega arith, (omega arith, (omega arith, tt))))
