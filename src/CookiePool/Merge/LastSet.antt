-- ===== src/CookiePool/Merge/LastSet.antt =====
-- mergeSetCookie: the updates give each name what the last header sets it to.
use gemini_web2api_go_browse.Prelude.{
  ℕ, ◌+◌, ◌≡◌, refl, ap, subst, ◌∙◌, inl, inr, true, false, not, ◌&&◌, ◌||◌, List, [], ◌∷◌, Option,
  none, some, arith, ltb, if◌then◌else◌, take, drop, index_byte, Text, text_eq, text_eq_iff,
  text_eq_sym, Bool-cases,
}
use gemini_web2api_go_browse.CookiePool.{trim_space}
use gemini_web2api_go_browse.CookiePool.Merge.{
  before_semicolon, find_update, set_update, deletes, add_update, updates_from,
}

abbrev pub or_else : Option Text → Option Text → Option Text
or_else none o = o
or_else (some v) o = some v

-- The reference: the value that one Set-Cookie header gives a name, and the last that any gives it.
abbrev given : Text → Text → Text → Option ℕ → Option Text
given name sc first none = none
given name sc first (some i) =
    if (ltb 0 i && not (deletes sc (drop (i + 1) first))) && text_eq (take i first) name
    then some (drop (i + 1) first)
    else none

abbrev pub sets : Text → Text → Option Text
sets name sc =
    let first = trim_space (before_semicolon sc) in given name sc first (index_byte b'=' first)

abbrev pub last_set : Text → List Text → Option Text
last_set name [] = none
last_set name (sc ∷ hs) = or_else (last_set name hs) (sets name sc)

find_update-set_update :
    (name k v : Text) (us : List (Text × Text))
    → find_update name (set_update k v us)
      ≡ (if text_eq k name then some v else find_update name us)
unfolding find_update set_update
find_update-set_update name k v [] = refl
find_update-set_update name k v ((n, w) ∷ us) = elim (Bool-cases (text_eq n k)) [
  | inl y ↦
      let same : n ≡ k = (text_eq_iff n k).0 y in
      elim (Bool-cases (text_eq k name)) [
        | inl at ↦ rw y (rw same (rw at refl))
        | inr off ↦ rw y (rw same (rw off refl))
      ]
  | inr z ↦ elim (Bool-cases (text_eq n name)) [
    | inl at ↦
        let n_is : n ≡ name = (text_eq_iff n name).0 at in
        let apart : text_eq k name ≡ false =
          text_eq_sym k name ∙ subst (λ t. text_eq t k ≡ false) n_is z in
        rw (z, apart) (rw at refl)
    | inr off ↦ rw z (rw off (find_update-set_update name k v us))
  ]
]

add_update-given :
    (name sc first : Text) (o : Option ℕ) (us : List (Text × Text))
    → find_update name (add_update sc first o us)
      ≡ or_else (given name sc first o) (find_update name us)
unfolding add_update
add_update-given name sc first none us = refl
add_update-given name sc first (some i) us =
    let val = drop (i + 1) first in
    elim (Bool-cases (ltb 0 i && not (deletes sc val))) [
      | inr n ↦
          let out : (not (ltb 0 i) || deletes sc val) ≡ true = ground arith in rw (n, out) refl
      | inl y ↦
          let into : (not (ltb 0 i) || deletes sc val) ≡ false = ground arith in
          elim (Bool-cases (text_eq (take i first) name)) [
            | inl at ↦
                rw (y, into, at) (find_update-set_update name (take i first) val us ∙ rw at refl)
            | inr off ↦
                rw (y, into, off) (find_update-set_update name (take i first) val us ∙ rw off refl)
          ]
    ]

or_else_assoc : (a b c : Option Text) → or_else a (or_else b c) ≡ or_else (or_else a b) c
or_else_assoc none b c = refl
or_else_assoc (some v) b c = refl

find_update-updates_from :
    (name : Text) (hs : List Text) (us : List (Text × Text))
    → find_update name (updates_from hs us) ≡ or_else (last_set name hs) (find_update name us)
unfolding updates_from
find_update-updates_from name [] us = refl
find_update-updates_from name (sc ∷ hs) us =
    let first = trim_space (before_semicolon sc) in
    let o = index_byte b'=' first in
    find_update-updates_from name hs (add_update sc first o us)
    ∙ ap (or_else (last_set name hs)) (add_update-given name sc first o us)
    ∙ or_else_assoc (last_set name hs) (sets name sc) (find_update name us)

or_else-none : (o : Option Text) → or_else o none ≡ o
or_else-none none = refl
or_else-none (some v) = refl

pub updates-last_set :
    (name : Text) (hs : List Text) → find_update name (updates_from hs []) ≡ last_set name hs
unfolding find_update
updates-last_set name hs = find_update-updates_from name hs [] ∙ or_else-none (last_set name hs)
