-- ===== src/ApiKey/Examples.antt =====
-- Concrete keys over a restart.
use gemini_web2api_go_browse.Prelude.{◌≡◌, true, false, List, [], ◌∷◌, codes, is_empty}
use gemini_web2api_go_browse.ApiKey.{booted, init_api_key}
use gemini_web2api_go_browse.ApiKey.Restart.{Change, rotated, chosen, changes, changes-restart}

abbrev edits : List Change
edits = chosen (codes "sk-0123456789-0123456789") true ∷ rotated (codes "ab") false ∷ []

changes-restart_example :
    let s = changes (init_api_key [] [] (codes "r") true (booted [])) edits in
    let fixed = init_api_key (codes "sk-flag") [] (codes "r") true (booted []) in
    ((init_api_key [] [] (codes "q") true (booted s.kv)).runtime ≡ s.runtime)
    × (is_empty (codes "sk-flag") ≡ false
        → (changes fixed edits ≡ fixed) × (fixed.runtime ≡ codes "sk-flag") × (fixed.kv ≡ []))
changes-restart_example = changes-restart [] (codes "r") (codes "q") (codes "sk-flag") [] true edits
