-- ===== src/CookiePool/Merge/Value.antt =====
-- mergeSetCookie: the value of every name after a merge, and the account that the cookie belongs to.
use gemini_web2api_go_browse.Prelude.{
  ◌≡◌, refl, sym, ap, subst, ◌∙◌, inl, inr, Bool, true, false, not, List, [], ◌∷◌, ◌++◌, none,
  if◌then◌else◌, map, keep, Text, codes, text_eq, text_eq_iff, Bool-cases, some_ne_none,
}
use gemini_web2api_go_browse.CookiePool.{
  split_cookie_pairs, value_in, cookie_value, identity_of, cookie_identity,
}
use gemini_web2api_go_browse.CookiePool.Merge.{
  find_update, updates_from, or_value, refreshed, named_in, merged_pairs, merge_set_cookie,
}
use gemini_web2api_go_browse.CookiePool.Merge.Merged.{merged_read}
use gemini_web2api_go_browse.CookiePool.Merge.LastSet.{last_set, updates-last_set}

-- A name among the new pairs is one of the updates.
value_fresh :
    (name : Text) (kvs us : List (Text × Text))
    → named_in kvs name ≡ false
    → value_in name (keep (λ u. not (named_in kvs u.0)) us) ≡ or_value (find_update name us) []
unfolding value_in find_update
value_fresh name kvs [] h = refl
value_fresh name kvs ((n, w) ∷ us) h = elim (Bool-cases (text_eq n name)) [
  | inl y ↦
      let new : named_in kvs n ≡ false =
        subst (λ t. named_in kvs t ≡ false) (sym ((text_eq_iff n name).0 y)) h in
      rw (new, y) refl
  | inr z ↦ elim (Bool-cases (named_in kvs n)) [
    | inl old ↦ rw (old, z) (value_fresh name kvs us h)
    | inr new ↦ rw (new, z) (value_fresh name kvs us h)
  ]
]

-- The search runs over the refreshed pairs, then over what follows.
value_refreshed :
    (name : Text) (us kvs rest : List (Text × Text))
    → value_in name (map (refreshed us) kvs ++ rest) ≡ (
        if named_in kvs name
        then or_value (find_update name us) (value_in name kvs)
        else value_in name rest)
unfolding value_in refreshed
value_refreshed name us [] rest = refl
value_refreshed name us ((k, v) ∷ kvs) rest = elim (Bool-cases (text_eq k name)) [
  | inr n ↦ rw n (value_refreshed name us kvs rest)
  | inl y ↦ let same : k ≡ name = (text_eq_iff k name).0 y in rw y (rw same refl)
]

true_ne_false : true ≡ false → ⊥
true_ne_false e = cc

value_absent :
    (name : Text) (kvs : List (Text × Text)) → named_in kvs name ≡ false → value_in name kvs ≡ []
unfolding value_in
value_absent name [] h = refl
value_absent name ((k, v) ∷ kvs) h = elim (Bool-cases (text_eq k name)) [
  | inl y ↦ absurd (true_ne_false (rw y at h))
  | inr n ↦ rw n (value_absent name kvs (rw n at h))
]

value_merged :
    (name : Text) (kvs us : List (Text × Text))
    → value_in name (merged_pairs kvs us) ≡ or_value (find_update name us) (value_in name kvs)
unfolding merged_pairs
value_merged name kvs us =
    let fresh = keep (λ u. not (named_in kvs u.0)) us in
    elim (Bool-cases (named_in kvs name)) [
      | inl y ↦ value_refreshed name us kvs fresh ∙ rw y refl
      | inr n ↦
          value_refreshed name us kvs fresh
          ∙ (rw n (value_fresh name kvs us n))
          ∙ ap (or_value (find_update name us)) (sym (value_absent name kvs n))
    ]

-- For every cookie, every Set-Cookie headers and every name: in the merged cookie the name has the value
-- of the last header that sets it without deleting it, and the value that it had where no header does.
pub merge_set_cookie-value :
    (cookie name : Text) (hs : List Text)
    → cookie_value (merge_set_cookie cookie hs) name
      ≡ or_value (last_set name hs) (cookie_value cookie name)
unfolding cookie_value
merge_set_cookie-value cookie name hs =
    ap (value_in name) (merged_read cookie hs)
    ∙ value_merged name (split_cookie_pairs cookie) (updates_from hs [])
    ∙ ap (λ o. or_value o (value_in name (split_cookie_pairs cookie))) (updates-last_set name hs)

abbrev Neither : List (Text × Text) → Text → Text → Type 0
Neither us a b = (find_update a us ≡ none) × (find_update b us ≡ none)

identity_refreshed :
    (sapisid psid : Text) (us kvs rest : List (Text × Text))
    → Neither us (codes "SAPISID") (codes "__Secure-1PSID")
    → ((s p : Text) → identity_of s p rest ≡ identity_of s p [])
    → identity_of sapisid psid (map (refreshed us) kvs ++ rest) ≡ identity_of sapisid psid kvs
unfolding identity_of refreshed
identity_refreshed s p us [] rest (a, b) end = end s p
identity_refreshed s p us ((k, v) ∷ kvs) rest (a, b) end =
    elim (Bool-cases (text_eq k (codes "SAPISID"))) [
      | inl y ↦
          let kept : or_value (find_update k us) v ≡ v =
            ap (λ t. or_value (find_update t us) v) ((text_eq_iff k (codes "SAPISID")).0 y)
            ∙ ap (λ o. or_value o v) a in
          rw y (
            ap (λ t. identity_of t p (map (refreshed us) kvs ++ rest)) kept
            ∙ identity_refreshed v p us kvs rest (a, b) end)
      | inr n ↦ elim (Bool-cases (text_eq k (codes "__Secure-1PSID"))) [
        | inl y ↦
            let kept : or_value (find_update k us) v ≡ v =
              ap (λ t. or_value (find_update t us) v) ((text_eq_iff k (codes "__Secure-1PSID")).0 y)
              ∙ ap (λ o. or_value o v) b in
            rw (n, y)
              (ap (λ t. identity_of s t (map (refreshed us) kvs ++ rest)) kept
                ∙ identity_refreshed s v us kvs rest (a, b) end)
        | inr z ↦ rw (n, z) (identity_refreshed s p us kvs rest (a, b) end)
      ]
    ]

identity_fresh :
    (s p : Text) (f : Text × Text → Bool) (us : List (Text × Text))
    → Neither us (codes "SAPISID") (codes "__Secure-1PSID")
    → identity_of s p (keep f us) ≡ identity_of s p []
unfolding identity_of find_update
identity_fresh s p f [] h = refl
identity_fresh s p f ((n, w) ∷ us) (a, b) = elim (Bool-cases (text_eq n (codes "SAPISID"))) [
  | inl y ↦ absurd (some_ne_none (rw y at a))
  | inr z ↦ elim (Bool-cases (text_eq n (codes "__Secure-1PSID"))) [
    | inl y ↦ absurd (some_ne_none (rw y at b))
    | inr x ↦
        let rest = identity_fresh s p f us (rw z at a, rw x at b) in
        elim (Bool-cases (f (n, w))) [ inl y ↦ rw y (rw (z, x) rest) | inr o ↦ rw o rest ]
  ]
]

-- Where no header sets SAPISID or __Secure-1PSID: the merged cookie is of the account that the cookie
-- was of, so that a write of it is not refused.
pub merge_set_cookie-identity :
    (cookie : Text) (hs : List Text)
    → last_set (codes "SAPISID") hs ≡ none
    → last_set (codes "__Secure-1PSID") hs ≡ none
    → cookie_identity (merge_set_cookie cookie hs) ≡ cookie_identity cookie
unfolding cookie_identity merged_pairs
merge_set_cookie-identity cookie hs a b =
    let us = updates_from hs [] in
    let kvs = split_cookie_pairs cookie in
    let fresh : Text × Text → Bool = λ u. not (named_in kvs u.0) in
    let none_of : Neither us (codes "SAPISID") (codes "__Secure-1PSID") = (
      updates-last_set (codes "SAPISID") hs ∙ a,
      updates-last_set (codes "__Secure-1PSID") hs ∙ b,
    ) in
    ap (identity_of [] []) (merged_read cookie hs)
    ∙ identity_refreshed [] [] us kvs (keep fresh us) none_of
        (λ s p. identity_fresh s p fresh us none_of)
