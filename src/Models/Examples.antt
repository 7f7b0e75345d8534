-- ===== src/Models/Examples.antt =====
-- Concrete names of models.
use gemini_web2api_go_browse.Prelude.{◌≡◌, ◌↔◌, true, List, [], Text, codes}
use gemini_web2api_go_browse.CookiePool.{CookieAccount}
use gemini_web2api_go_browse.Models.{has_cookie, resolve_model, model_named, models}
use gemini_web2api_go_browse.Models.Resolve.{Signed, Cut, verdict, resolve_model-verdict}

abbrev deep_pro : Text
deep_pro = codes "gemini-3.1-pro@think=4"

abbrev nobody : List CookieAccount
nobody = []

resolve_model-verdict_example :
    ((has_cookie nobody ≡ true) ↔ Signed nobody)
    × ((n : Text) × Cut deep_pro n
        × (resolve_model nobody deep_pro ≡ verdict (has_cookie nobody) n (model_named n models)))
resolve_model-verdict_example = resolve_model-verdict nobody deep_pro
