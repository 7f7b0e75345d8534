-- ===== src/AuthUser.antt =====
-- internal/app/authuser.go: the account slot of a request, its URLs, and the slot in the name of a
-- profile. A text of digits stands for strconv.Atoi's number; a sign makes a slot that is not used.
pub mod Bounds
pub mod Profile
pub mod Digits
mod Examples
use gemini_web2api_go_browse.Prelude.{
  ℕ, zero, suc, ◌+◌, ◌-◌, ◌*◌, ◌/◌, ◌%◌, Bool, true, false, not, ◌&&◌, ◌||◌, List, [], ◌∷◌, ◌++◌,
  Option, none, some, ltb, leb, ◌==◌, if◌then◌else◌, length, drop, Text, codes, has_prefix,
  is_empty,
}
use gemini_web2api_go_browse.CookiePool.{trim_space}

-- strconv.Itoa, on as many rounds as the number has digits at most.
digits : ℕ → ℕ → Text
digits zero n = []
digits (suc f) n =
    let rest = digits f (n / 10) in
    if ltb n 10 then (0x30 + n) ∷ [] else rest ++ (0x30 + n % 10) ∷ []

unfoldable pub itoa : ℕ → Text
unfolding digits
itoa n = digits (n + 1) n

pub gemini_url_prefix : ℕ → Text
unfolding itoa
gemini_url_prefix authuser = if authuser == 0 then [] else codes "/u/" ++ itoa authuser

pub gemini_page_url : ℕ → Text
unfolding gemini_url_prefix
gemini_page_url authuser =
    codes "https://gemini.google.com" ++ (gemini_url_prefix authuser ++ codes "/app")

pub gemini_root_url : ℕ → Text
unfolding gemini_url_prefix
gemini_root_url authuser =
    codes "https://gemini.google.com" ++ (gemini_url_prefix authuser ++ codes "/")

pub auth_user_header_value : ℕ → Text
unfolding itoa
auth_user_header_value authuser = if authuser == 0 then codes "0" else itoa authuser

abbrev is_digit : ℕ → Bool
is_digit b = leb 0x30 b && leb b 0x39

all_digits : Text → Bool
all_digits [] = true
all_digits (b ∷ s) = is_digit b && all_digits s

number : ℕ → Text → ℕ
number n [] = n
number n (b ∷ s) = number (n * 10 + (b - 0x30)) s

-- strconv.Atoi: a sign may stand before the digits. A number below 0 is given as none: it is refused.
pub atoi : Text → Option ℕ
unfolding number all_digits
atoi [] = none
atoi (b ∷ s) =
    if b == 0x2b
    then (if is_empty s || not (all_digits s) then none else some (number 0 s))
    else if b == 0x2d
    then (if is_empty s || not (all_digits s && number 0 s == 0) then none else some 0)
    else if all_digits (b ∷ s)
    then some (number 0 (b ∷ s))
    else none

slot_of : Option ℕ → ℕ
slot_of none = 0
slot_of (some n) = if ltb 9 n then 0 else n

pub parse_auth_user : Text → ℕ
unfolding atoi slot_of
parse_auth_user s = slot_of (atoi (trim_space s))

-- strings.LastIndex
unfoldable pub last_index : Text → Text → Option ℕ
last_index p [] = none
last_index p (c ∷ s) = elim (last_index p s) [
  | some i ↦ some (suc i)
  | none ↦ if has_prefix p (c ∷ s) then some 0 else none
]

abbrev slot_mark : Text
slot_mark = codes "-u"

from_mark : Text → Option ℕ → ℕ
from_mark profile none = 0
from_mark profile (some i) = parse_auth_user (drop (i + 2) profile)

pub auth_user_from_profile : Text → ℕ
unfolding parse_auth_user last_index from_mark
auth_user_from_profile profile = from_mark profile (last_index slot_mark profile)

legacy_from : Text → Option ℕ → Bool
unfolding all_digits
legacy_from profile none = false
legacy_from profile (some i) = let n = drop (i + 2) profile in not (is_empty n) && all_digits n

unfoldable pub is_legacy_multi_account_profile : Text → Bool
unfolding legacy_from last_index
is_legacy_multi_account_profile profile = legacy_from profile (last_index slot_mark profile)
