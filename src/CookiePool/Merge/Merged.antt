-- ===== src/CookiePool/Merge/Merged.antt =====
-- mergeSetCookie: a merged cookie is read back as its pairs.
use gemini_web2api_go_browse.Prelude.{
  ◌+◌, ◌≡◌, refl, sym, ap, subst, ◌∙◌, inl, inr, Bool, true, false, not, ◌||◌, List, [], ◌∷◌, some,
  arith, ltb, ◌==◌, if◌then◌else◌, map, keep, take, drop, index_byte, is_empty, Text, text_eq,
  text_eq_iff, append-nil, All, All-append, Bool-cases, Option-cases, some_ne_none, some_injective,
  ltb→lt,
}
use gemini_web2api_go_browse.CookiePool.{trim_space, split_cookie_pairs}
use gemini_web2api_go_browse.CookiePool.Trim.{has_byte}
use gemini_web2api_go_browse.CookiePool.Merge.{
  pair_text, join_parts, before_semicolon, find_update, set_update, deletes, add_update,
  updates_from, refreshed, named_in, merged_pairs, merge_set_cookie,
}
use gemini_web2api_go_browse.CookiePool.Merge.RoundTrip.{
  Formed, cut_pair-Formed, split_cookie_pairs-Formed, split_cookie_pairs-join_parts,
}

before_semicolon_clean : (s : Text) → has_byte b';' (before_semicolon s) ≡ false
unfolding before_semicolon
before_semicolon_clean [] = refl
before_semicolon_clean (b ∷ s) = elim (Bool-cases (b == b';')) [
  | inl y ↦ rw y refl
  | inr n ↦ rw n (rw n (before_semicolon_clean s))
]

set_update-Formed :
    (k v : Text) (us : List (Text × Text))
    → Formed (k, v)
    → All Formed us
    → All Formed (set_update k v us)
unfolding set_update
set_update-Formed k v [] f h = (f, tt)
set_update-Formed k v ((n, w) ∷ us) f (g, h) = elim (Bool-cases (text_eq n k)) [
  | inl y ↦ rw y (subst (λ t. Formed (t, v)) (sym ((text_eq_iff n k).0 y)) f, h)
  | inr z ↦ rw z (g, set_update-Formed k v us f h)
]

updates_from-Formed :
    (hs : List Text) (us : List (Text × Text)) → All Formed us → All Formed (updates_from hs us)
unfolding updates_from add_update
updates_from-Formed [] us h = h
updates_from-Formed (sc ∷ hs) us h =
    let s = before_semicolon sc in
    elim (Option-cases (index_byte b'=' (trim_space s))) [
      | inl e ↦ rw e (updates_from-Formed hs us h)
      | inr (i, e) ↦
          let val = drop (i + 1) (trim_space s) in
          elim (Bool-cases (not (ltb 0 i) || deletes sc val)) [
            | inl y ↦ rw e (rw y (updates_from-Formed hs us h))
            | inr n ↦
                let pos : ltb 0 i ≡ true = ground arith in
                let f = cut_pair-Formed s i (before_semicolon_clean sc) e (ltb→lt 0 i pos) in
                rw e (
                  rw n (
                    updates_from-Formed hs (set_update (take i (trim_space s)) val us)
                      (set_update-Formed (take i (trim_space s)) val us f h)))
          ]
    ]

find_update-Formed :
    (k : Text) (us : List (Text × Text)) (v : Text)
    → All Formed us
    → find_update k us ≡ some v
    → Formed (k, v)
unfolding find_update
find_update-Formed k [] v h e = absurd (some_ne_none (sym e))
find_update-Formed k ((n, w) ∷ us) v (f, h) e = elim (Bool-cases (text_eq n k)) [
  | inl y ↦
      subst (λ t. Formed (k, t)) (some_injective (rw y at e))
        (subst (λ t. Formed (t, w)) ((text_eq_iff n k).0 y) f)
  | inr z ↦ find_update-Formed k us v h (rw z at e)
]

refreshed-Formed :
    (us kvs : List (Text × Text))
    → All Formed us
    → All Formed kvs
    → All Formed (map (refreshed us) kvs)
unfolding refreshed
refreshed-Formed us [] h g = tt
refreshed-Formed us ((k, v) ∷ kvs) h (f, g) = elim (Option-cases (find_update k us)) [
  | inl e ↦ rw e (f, refreshed-Formed us kvs h g)
  | inr (w, e) ↦ rw e (find_update-Formed k us w h e, refreshed-Formed us kvs h g)
]

keep-Formed :
    (p : Text × Text → Bool) (us : List (Text × Text)) → All Formed us → All Formed (keep p us)
keep-Formed p [] h = tt
keep-Formed p (u ∷ us) (f, h) = elim (Bool-cases (p u)) [
  | inl y ↦ rw y (f, keep-Formed p us h)
  | inr n ↦ rw n (keep-Formed p us h)
]

refreshed_nothing : (kvs : List (Text × Text)) → map (refreshed []) kvs ≡ kvs
unfolding refreshed find_update
refreshed_nothing [] = refl
refreshed_nothing ((k, v) ∷ kvs) = ap (λ x. (k, v) ∷ x) (refreshed_nothing kvs)

joined_read :
    (cookie : Text) (us : List (Text × Text))
    → All Formed us
    → let kvs = split_cookie_pairs cookie in
      split_cookie_pairs
        (if is_empty us then cookie else join_parts (map pair_text (merged_pairs kvs us)))
      ≡ merged_pairs kvs us
unfolding merged_pairs
joined_read cookie [] h =
    let kvs = split_cookie_pairs cookie in
    sym (append-nil (map (refreshed []) kvs) ∙ refreshed_nothing kvs)
joined_read cookie (u ∷ us) h =
    let kvs = split_cookie_pairs cookie in
    let fresh = keep (λ w. not (named_in kvs w.0)) (u ∷ us) in
    split_cookie_pairs-join_parts (merged_pairs kvs (u ∷ us)) (
      All-append Formed (map (refreshed (u ∷ us)) kvs) fresh
        (refreshed-Formed (u ∷ us) kvs h (split_cookie_pairs-Formed cookie))
        (keep-Formed (λ w. not (named_in kvs w.0)) (u ∷ us) h))

-- The pairs that are read from a merged cookie.
pub merged_read :
    (cookie : Text) (hs : List Text)
    → split_cookie_pairs (merge_set_cookie cookie hs)
      ≡ merged_pairs (split_cookie_pairs cookie) (updates_from hs [])
unfolding merge_set_cookie
merged_read cookie hs = joined_read cookie (updates_from hs []) (updates_from-Formed hs [] tt)
