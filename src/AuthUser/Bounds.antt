-- ===== src/AuthUser/Bounds.antt =====
-- The slot that is read from a text or from a profile is one of the ten that the source allows.
use gemini_web2api_go_browse.Prelude.{ℕ, ◌+◌, ◌<◌, Option, none, some, arith, Text, drop}
use gemini_web2api_go_browse.CookiePool.{trim_space}
use gemini_web2api_go_browse.AuthUser.{
  atoi, slot_of, parse_auth_user, last_index, slot_mark, from_mark, auth_user_from_profile,
}

slot_of-below : (n : Option ℕ) → slot_of n < 10
unfolding slot_of
slot_of-below none = omega arith
slot_of-below (some n) = ground arith

parse_auth_user-below : (s : Text) → parse_auth_user s < 10
unfolding parse_auth_user
parse_auth_user-below s = slot_of-below (atoi (trim_space s))

from_mark-below : (profile : Text) (i : Option ℕ) → from_mark profile i < 10
unfolding from_mark
from_mark-below profile none = omega arith
from_mark-below profile (some i) = parse_auth_user-below (drop (i + 2) profile)

pub auth_user_from_profile-below : (profile : Text) → auth_user_from_profile profile < 10
unfolding auth_user_from_profile
auth_user_from_profile-below profile = from_mark-below profile (last_index slot_mark profile)
