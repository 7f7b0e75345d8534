-- ===== src/CookiePool/Seeds/Follow.antt =====
-- syncSeededCookieFile over two starts.
use gemini_web2api_go_browse.Prelude.{
  ℕ, ◌≡◌, refl, sym, ap, ◌∙◌, true, false, ◌||◌, List, [], ◌∷◌, Option, none, some, ◌==◌, Text,
  text_eq, text_eq_refl, is_empty, Bool-cases, Option-cases, inl, inr, some_ne_none,
}
use gemini_web2api_go_browse.CookiePool.{
  CookieAccount, trim_space, account_insert_authuser, account_by_id, account_delete,
  pool_has_cookie,
}
use gemini_web2api_go_browse.CookiePool.Seeds.{
  CookieFile, not_given, unreadable, contents, CookieSeeds, same_cookie, drop_account,
  drop_seeded_cookie, adopt, account_adopt, seeded_with, follow, follow_read,
  sync_seeded_cookie_file,
}

by_id-deleted : (i : ℕ) (rows : List CookieAccount) → account_by_id i (account_delete i rows) ≡ none
unfolding account_by_id account_delete
by_id-deleted i [] = refl
by_id-deleted i (a ∷ rows) = elim (Bool-cases (a.id == i)) [
  | inl y ↦ rw y (by_id-deleted i rows)
  | inr n ↦ rw n (rw n (by_id-deleted i rows))
]

drop_account-twice :
    (i : ℕ) (cookie : Text) (rows : List CookieAccount)
    → drop_account i cookie (drop_account i cookie rows) ≡ drop_account i cookie rows
unfolding drop_account same_cookie
drop_account-twice i cookie rows = elim (Bool-cases (same_cookie cookie (account_by_id i rows))) [
  | inl y ↦ rw y (rw (by_id-deleted i rows) refl)
  | inr n ↦ rw n (rw n refl)
]

drop_cookie-twice :
    (prev : Text) (i : Option ℕ) (rows : List CookieAccount)
    → drop_seeded_cookie prev i (drop_seeded_cookie prev i rows) ≡ drop_seeded_cookie prev i rows
unfolding drop_seeded_cookie
drop_cookie-twice prev none rows = refl
drop_cookie-twice prev (some i) rows = elim (Bool-cases (is_empty prev || i == 0)) [
  | inl y ↦ rw y refl
  | inr n ↦ rw n (drop_account-twice i prev rows)
]

module _ (normalize : Text → Option Text) (label note : Text) where
  -- The three ways of a start.
  module _ (i now : ℕ) (cur : Text) (s : CookieSeeds) where
    dropped : List CookieAccount
    dropped = drop_seeded_cookie s.seeded_value s.seeded_id s.table

    follow_known : text_eq cur s.seeded_value ≡ true → follow normalize i now label note cur s ≡ s
    unfolding follow
    follow_known y = rw y refl

    follow_taken :
        text_eq cur s.seeded_value ≡ false
        → (is_empty cur || pool_has_cookie cur dropped) ≡ true
        → follow normalize i now label note cur s
          ≡ record s { table = dropped; seeded_value = cur; seeded_id = none }
    unfolding follow dropped
    follow_taken n y = rw (n, y) refl

    follow_new :
        text_eq cur s.seeded_value ≡ false
        → (is_empty cur || pool_has_cookie cur dropped) ≡ false
        → follow normalize i now label note cur s
          ≡ seeded_with normalize i cur dropped s
              (account_adopt normalize i now label cur note dropped)
    unfolding follow dropped
    follow_new n z = rw (n, z) refl

  adopt-none :
      (c : Option Text) (i j now later : ℕ) (rows : List CookieAccount)
      → adopt normalize c i now label note rows ≡ none
      → adopt normalize c j later label note rows ≡ none
  unfolding adopt account_insert_authuser
  adopt-none none i j now later rows e = refl
  adopt-none (some c) i j now later rows e = elim (Bool-cases (is_empty (trim_space c))) [
    | inl y ↦ rw y refl
    | inr n ↦ absurd (some_ne_none (rw n at e))
  ]

  follow-twice :
      (i j now later : ℕ) (cur : Text) (s : CookieSeeds)
      → follow normalize j later label note cur (follow normalize i now label note cur s)
        ≡ follow normalize i now label note cur s
  unfolding seeded_with dropped account_adopt
  follow-twice i j now later cur s =
      let first = follow normalize i now label note cur s in
      let old = dropped i now cur s in
      let again =
        λ (t : CookieSeeds) (e : first ≡ t) (k : follow normalize j later label note cur t ≡ t).
          ap (follow normalize j later label note cur) e ∙ k ∙ sym e in
      elim (Bool-cases (text_eq cur s.seeded_value)) [
        | inl y ↦ again s (follow_known i now cur s y) (follow_known j later cur s y)
        | inr n ↦ elim (Bool-cases (is_empty cur || pool_has_cookie cur old)) [
          | inl y ↦
              again (record s { table = old; seeded_value = cur; seeded_id = none })
                (follow_taken i now cur s n y)
                (follow_known j later cur
                  (record s { table = old; seeded_value = cur; seeded_id = none })
                  (text_eq_refl cur))
          | inr z ↦ elim (Option-cases (account_adopt normalize i now label cur note old)) [
            | inl e ↦
                let t : CookieSeeds = record s { table = old } in
                let same = drop_cookie-twice s.seeded_value s.seeded_id s.table in
                again t (follow_new i now cur s n z ∙ ap (seeded_with normalize i cur old s) e) (
                  follow_new j later cur t n
                    (ap (λ q. is_empty cur || pool_has_cookie cur q) same ∙ z)
                  ∙ ap
                      (λ q.
                        seeded_with normalize j cur q t
                          (account_adopt normalize j later label cur note q))
                      same
                  ∙ ap (seeded_with normalize j cur old t)
                      (adopt-none (normalize cur) i j now later old e))
            | inr (rows, e) ↦
                let t : CookieSeeds = record s {
                  table = rows;
                  seeded_value = cur;
                  seeded_id = some i;
                } in
                again t (follow_new i now cur s n z ∙ ap (seeded_with normalize i cur old s) e)
                  (follow_known j later cur t (text_eq_refl cur))
          ]
        ]
      ]

  -- Whatever normalizeCookie makes of a text, the file at --cookie-file and the state: a second start
  -- with the same file changes nothing, neither the rows nor what is recorded, whatever id and time it
  -- has, and whether or not the first one could use the file.
  pub sync_seeded_cookie_file-twice :
      (i j now later : ℕ) (file : CookieFile) (s : CookieSeeds)
      → sync_seeded_cookie_file normalize j later label note file
          (sync_seeded_cookie_file normalize i now label note file s)
        ≡ sync_seeded_cookie_file normalize i now label note file s
  unfolding sync_seeded_cookie_file follow_read
  sync_seeded_cookie_file-twice i j now later not_given s = follow-twice i j now later [] s
  sync_seeded_cookie_file-twice i j now later unreadable s = refl
  sync_seeded_cookie_file-twice i j now later (contents text) s =
      elim (Bool-cases (is_empty (trim_space text))) [
        | inl y ↦ rw y (follow-twice i j now later [] s)
        | inr n ↦ elim (Option-cases (normalize (trim_space text))) [
          | inl e ↦ rw n (rw e refl)
          | inr (cur, e) ↦ rw n (rw e (follow-twice i j now later cur s))
        ]
      ]
