-- ===== src/CookiePool/Merge.antt =====
-- mergeSetCookie and cookieSubset of internal/app/cookie_pool.go, and what a merge keeps. The updates
-- of a merge are a Go map: here its entries in the order in which they were first written, one of
-- the orders in which the source may append them.
pub mod RoundTrip
pub mod Merged
pub mod LastSet
pub mod Value
use gemini_web2api_go_browse.Prelude.{
  ℕ, ◌+◌, Bool, true, false, not, ◌&&◌, ◌||◌, List, [], ◌∷◌, ◌++◌, Option, none, some, ltb, ◌==◌,
  if◌then◌else◌, take, drop, index_byte, index, is_empty, Text, codes, text_eq, map, any, keep,
}
use gemini_web2api_go_browse.CookiePool.{trim_space, split_cookie_pairs}
use gemini_web2api_go_browse.ModelGuard.{lower}

-- `k=v` for a pair.
abbrev pub pair_text : Text × Text → Text
pair_text (k, v) = k ++ (b'=' ∷ v)

-- strings.Join(parts, "; ")
unfoldable pub join_parts : List Text → Text
join_parts [] = []
join_parts (p ∷ []) = p
join_parts (p ∷ q ∷ ps) = p ++ (b';' ∷ b' ' ∷ join_parts (q ∷ ps))

-- strings.SplitN(s, ";", 2)[0]
unfoldable pub before_semicolon : Text → Text
before_semicolon [] = []
before_semicolon (b ∷ s) = if b == b';' then [] else b ∷ before_semicolon s

unfoldable pub find_update : Text → List (Text × Text) → Option Text
find_update k [] = none
find_update k ((n, v) ∷ us) = if text_eq n k then some v else find_update k us

-- updates[name] = val
unfoldable pub set_update : Text → Text → List (Text × Text) → List (Text × Text)
set_update k v [] = (k, v) ∷ []
set_update k v ((n, w) ∷ us) = if text_eq n k then (n, v) ∷ us else (n, w) ∷ set_update k v us

contains : Text → Text → Bool
contains p s = elim (index p s) [ none ↦ false | some i ↦ true ]

-- An empty value with an expiry in 1970 deletes a cookie, and is no update.
unfoldable pub deletes : Text → Text → Bool
unfolding contains
deletes sc val = is_empty val && contains (codes "expires=thu, 01 jan 1970") (lower sc)

add_update : Text → Text → Option ℕ → List (Text × Text) → List (Text × Text)
unfolding deletes
add_update sc first none us = us
add_update sc first (some i) us =
    let val = drop (i + 1) first in
    if not (ltb 0 i) || deletes sc val then us else set_update (take i first) val us

pub updates_from : List Text → List (Text × Text) → List (Text × Text)
unfolding add_update
updates_from [] us = us
updates_from (sc ∷ scs) us =
    let first = trim_space (before_semicolon sc) in
    updates_from scs (add_update sc first (index_byte b'=' first) us)

-- The value that an update gives, or the one that was there.
abbrev pub or_value : Option Text → Text → Text
or_value none t = t
or_value (some v) t = v

-- The pair of a cookie after the updates.
refreshed : List (Text × Text) → Text × Text → Text × Text
refreshed us (k, v) = (k, or_value (find_update k us) v)

abbrev named_in : List (Text × Text) → Text → Bool
named_in kvs k = any (λ kv. text_eq kv.0 k) kvs

pub merged_pairs : List (Text × Text) → List (Text × Text) → List (Text × Text)
unfolding refreshed
merged_pairs kvs us = map (refreshed us) kvs ++ keep (λ u. not (named_in kvs u.0)) us

unfoldable pub merge_set_cookie : Text → List Text → Text
unfolding updates_from merged_pairs
merge_set_cookie cookie set_cookie =
    let us = updates_from set_cookie [] in
    if is_empty us
    then cookie
    else join_parts (map pair_text (merged_pairs (split_cookie_pairs cookie) us))

-- The loop of cookieSubset: the first pair with a value for each name that is wanted.
subset_pairs : List Text → List Text → List (Text × Text) → List (Text × Text)
subset_pairs names seen [] = []
subset_pairs names seen ((k, v) ∷ kvs) =
    if not (any (text_eq k) names) || is_empty v || any (text_eq k) seen
    then subset_pairs names seen kvs
    else (k, v) ∷ subset_pairs names (k ∷ seen) kvs

unfoldable pub cookie_subset : Text → List Text → Text
unfolding subset_pairs
cookie_subset cookie names =
    join_parts (map pair_text (subset_pairs names [] (split_cookie_pairs cookie)))
