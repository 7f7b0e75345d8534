-- ===== src/ModelGuard/Examples.antt =====
-- Concrete requests before the guard.
use gemini_web2api_go_browse.Prelude.{
  ℕ, ◌≡◌, refl, true, [], ◌∷◌, codes, has_prefix, text_eq, index_byte,
}
use gemini_web2api_go_browse.ModelGuard.{Served, downgraded}
use gemini_web2api_go_browse.ModelGuard.Spacing.{fetches, Spaced, fetches-Spaced}

abbrev served : ℕ → Served
served t = record {
  model = codes "gemini-3.1-pro@think=2";
  upstream = codes "3.5 Flash-Lite";
  account_id = 4;
  status = 200;
  now = t;
}

is_downgraded : downgraded (served 9) ≡ true
unfolding downgraded has_prefix text_eq index_byte
is_downgraded = refl

fetches-Spaced_example : Spaced (fetches (served 10 ∷ served 20 ∷ served 18010 ∷ []) [])
fetches-Spaced_example = fetches-Spaced (served 10 ∷ served 20 ∷ served 18010 ∷ []) []
