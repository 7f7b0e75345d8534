-- ===== src/AuthUser/Examples.antt =====
-- Concrete profiles and URLs.
use gemini_web2api_go_browse.Prelude.{◌≡◌, refl, true, arith, codes}
use gemini_web2api_go_browse.AuthUser.{
  gemini_page_url, auth_user_from_profile, is_legacy_multi_account_profile,
}
use gemini_web2api_go_browse.AuthUser.Profile.{slot_profile, auth_user_from_profile-slot}

page_of_slot : gemini_page_url 2 ≡ codes "https://gemini.google.com/u/2/app"
unfolding gemini_page_url
page_of_slot = refl

auth_user_from_profile-slot_example :
    (auth_user_from_profile (slot_profile (codes "browser1") 3) ≡ 3)
    × (is_legacy_multi_account_profile (slot_profile (codes "browser1") 3) ≡ true)
auth_user_from_profile-slot_example = auth_user_from_profile-slot (codes "browser1") 3 (omega arith)
