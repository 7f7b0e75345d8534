-- ===== src/Rotate/Managed.antt =====
-- A round of keep-alives over the whole pool: which rows it may change, and how.
use gemini_web2api_go_browse.Prelude.{
  ℕ, ap, ◌+◌, ◌≡◌, ◌≢◌, refl, sym, subst, ◌∙◌, ◌⊎◌, inl, inr, Bool, true, false, ◌||◌, List, [],
  ◌∷◌, Option, some, arith, ◌==◌, All, Bool-cases, some_injective, Text, text_eq, not,
}
use gemini_web2api_go_browse.CookiePool.{
  CookieAccount, update_account_cookie, enabled, browser_managed_cookie, account_by_id,
}
use gemini_web2api_go_browse.CookiePool.Identity.{
  identities, DistinctAccounts, update_account_cookie_keeps, update_account_cookie_other,
  update_account_cookie-DistinctAccounts,
}
use gemini_web2api_go_browse.Rotate.{
  Answered, Rotation, rotate_account, rotate_rows, rotate_all_accounts, next_interval,
  default_rotate_interval, write_back, renewed_cookie, rotate_sidcc, try_rotate_1psidts,
  kept_cookie,
}

-- A round leaves an account alone that is not enabled, or whose cookie a browser keeps.
abbrev pub left_alone : CookieAccount → Bool
left_alone a = not (text_eq a.status enabled) || browser_managed_cookie a

-- Rows that a round may have made of others: of the same accounts where the reads are sure, with distinct
-- ids, and the row of one id as it was, where that is asked for.
record Same (sure own_too : Bool) (j : ℕ) (before after : List CookieAccount) : Type 0 where
  accounts : sure ≡ true → identities after ≡ identities before
  distinct : DistinctAccounts after
  own : own_too ≡ true → account_by_id j after ≡ account_by_id j before

Same-trans :
    (v o : Bool) (j : ℕ) (a b c : List CookieAccount)
    → Same v o j a b
    → Same v o j b c
    → Same v o j a c
Same-trans v o j a b c s t = record {
  accounts = λ y. t.accounts y ∙ s.accounts y;
  distinct = t.distinct;
  own = λ y. t.own y ∙ s.own y;
}

Same-refl : (v o : Bool) (j : ℕ) (a : List CookieAccount) → DistinctAccounts a → Same v o j a a
Same-refl v o j a d = record { accounts = λ y. refl; distinct = d; own = λ y. refl }

write_back-Same :
    (v o : Bool) (j : ℕ) (a : CookieAccount) (cookie : Text) (r : Rotation)
    → (v ≡ true → r.reads a.id ≡ true)
    → (o ≡ true → j ≢ a.id)
    → DistinctAccounts r.table
    → Same v o j r.table (write_back a cookie r).table
unfolding write_back
write_back-Same v o j a cookie r sure n d = elim (Bool-cases (text_eq cookie a.cookie)) [
  | inl y ↦ rw y (Same-refl v o j r.table d)
  | inr z ↦ rw z (record {
    accounts = λ y.
        ap (λ b. identities (update_account_cookie b a.id cookie r.table)) (sure y)
        ∙ update_account_cookie_keeps a.id cookie r.table d;
    distinct = update_account_cookie-DistinctAccounts (r.reads a.id) a.id cookie r.table d;
    own = λ y. update_account_cookie_other (r.reads a.id) a.id j cookie r.table (n y);
  })
]

write_back-reads :
    (a : CookieAccount) (cookie : Text) (r : Rotation) → (write_back a cookie r).reads ≡ r.reads
unfolding write_back
write_back-reads a cookie r = elim (Bool-cases (text_eq cookie a.cookie)) [
  | inl y ↦ rw y refl
  | inr z ↦ rw z refl
]

module _ (post : Text → Text → Text → Answered) (page : Text → Text → Answered)
    (init_params : Text → Option (Text × Option ℕ)) where
  rotate_account-Same :
      (v o : Bool) (j now : ℕ) (url : Text) (a : CookieAccount) (r : Rotation)
      → (v ≡ true → r.reads a.id ≡ true)
      → (o ≡ true → (browser_managed_cookie a ≡ true) ⊎ (j ≢ a.id))
      → DistinctAccounts r.table
      → Same v o j r.table (rotate_account post page init_params now url a r).1.table
  unfolding rotate_account
  rotate_account-Same v o j now url a r sure h d = elim (Bool-cases (browser_managed_cookie a)) [
    | inl y ↦ rw y (Same-refl v o j r.table d)
    | inr z ↦
        let (step, posted, asked) =
          try_rotate_1psidts post page init_params now (now + r.took) r.others a.id a.cookie url
            r.asked in
        let c1 = renewed_cookie a.cookie step in
        let c2 = kept_cookie c1 (rotate_sidcc post page init_params c1 url) in
        let other : o ≡ true → j ≢ a.id =
          λ y. elim (h y) [ inl managed ↦ absurd (cc) | inr n ↦ n ] in
        rw z (write_back-Same v o j a c2 (record r { asked = asked }) sure other d)
  ]

  -- One keep-alive changes the account of no row, where the row is read.
  pub rotate_account-identities :
      (now : ℕ) (url : Text) (a : CookieAccount) (r : Rotation)
      → DistinctAccounts r.table
      → r.reads a.id ≡ true
      → let r' = (rotate_account post page init_params now url a r).1 in
        (identities r'.table ≡ identities r.table) × DistinctAccounts r'.table
  rotate_account-identities now url a r d sure =
      let same = rotate_account-Same true false 0 now url a r (λ y. sure) (λ y. cc) d in
      (same.accounts refl, same.distinct)

  rotate_account-reads :
      (now : ℕ) (url : Text) (a : CookieAccount) (r : Rotation)
      → (rotate_account post page init_params now url a r).1.reads ≡ r.reads
  unfolding rotate_account
  rotate_account-reads now url a r = elim (Bool-cases (browser_managed_cookie a)) [
    | inl y ↦ rw y refl
    | inr z ↦ rw z (write_back-reads a _ _)
  ]

  rotate_rows-Same :
      (v o : Bool) (j : ℕ) (url_of : ℕ → Text) (now_of : ℕ → ℕ) (rows : List CookieAccount)
      (next : ℕ) (r : Rotation)
      → (v ≡ true → (i : ℕ) → r.reads i ≡ true)
      → All (λ a. o ≡ true → (left_alone a ≡ true) ⊎ (j ≢ a.id)) rows
      → DistinctAccounts r.table
      → Same v o j r.table (rotate_rows post page init_params url_of now_of rows next r).1.table
  unfolding rotate_rows
  rotate_rows-Same v o j url_of now_of [] next r sure h d = Same-refl v o j r.table d
  rotate_rows-Same v o j url_of now_of (a ∷ rows) next r sure (fits, h) d =
      elim (Bool-cases (text_eq a.status enabled)) [
        | inr off ↦ rw off (rotate_rows-Same v o j url_of now_of rows next r sure h d)
        | inl on ↦
            let (out, r') =
              rotate_account post page init_params (now_of a.id) (url_of a.proxy_id) a r in
            let fit : o ≡ true → (browser_managed_cookie a ≡ true) ⊎ (j ≢ a.id) =
              λ y. elim (fits y) [ inl alone ↦ inl (ground arith) | inr n ↦ inr n ] in
            let first =
              rotate_account-Same v o j (now_of a.id) (url_of a.proxy_id) a r (λ y. sure y a.id) fit
                d in
            let same = rotate_account-reads (now_of a.id) (url_of a.proxy_id) a r in
            let sure' : v ≡ true → (i : ℕ) → r'.reads i ≡ true =
              λ y i. ap (λ f. f i) same ∙ sure y i in
            rw on (
              Same-trans v o j r.table r'.table _ first (
                rotate_rows-Same v o j url_of now_of rows (next_interval next out) r' sure' h
                  first.distinct))
      ]

  unasked :
      (j : ℕ) (rows : List CookieAccount)
      → All (λ a. false ≡ true → (left_alone a ≡ true) ⊎ (j ≢ a.id)) rows
  unasked j [] = tt
  unasked j (a ∷ rows) = ((λ y. cc), unasked j rows)

  apart :
      (j : ℕ) (rows : List CookieAccount)
      → All (λ b. b.id ≢ j) rows
      → All (λ a. true ≡ true → (left_alone a ≡ true) ⊎ (j ≢ a.id)) rows
  apart j [] h = tt
  apart j (b ∷ rows) (n, h) = ((λ y. inr (λ e. n (sym e))), apart j rows h)

  -- With distinct ids, the row of an id that is left alone leaves every row left alone or of another id.
  asked :
      (j : ℕ) (a : CookieAccount) (rows : List CookieAccount)
      → DistinctAccounts rows
      → account_by_id j rows ≡ some a
      → left_alone a ≡ true
      → All (λ a. true ≡ true → (left_alone a ≡ true) ⊎ (j ≢ a.id)) rows
  unfolding account_by_id
  asked j a [] d e alone = tt
  asked j a (b ∷ rows) (n, d) e alone = elim (Bool-cases (b.id == j)) [
    | inl here ↦
        let same : b ≡ a = some_injective (rw here at e) in
        let at : b.id ≡ j = ground arith in
        (
          (λ y. inl (subst (λ c. left_alone c ≡ true) (sym same) alone)),
          apart j rows (subst (λ k. All (λ c. c.id ≢ k) rows) at n),
        )
    | inr there ↦ ((λ y. inr (ground arith)), asked j a rows d (rw there at e) alone)
  ]

  -- Whatever Google answers and whatever the times and exits are, on rows with distinct ids: a round over
  -- the pool leaves as it is every row that is not enabled or whose cookie a browser keeps, whatever the
  -- database does; and it leaves every row with the account that its cookie was of, if the database
  -- answers the read of every row that is written back.
  pub rotate_all_accounts-identities :
      (url_of : ℕ → Text) (now_of : ℕ → ℕ) (r : Rotation)
      → DistinctAccounts r.table
      → let r' = (rotate_all_accounts post page init_params url_of now_of r).1 in
        (((i : ℕ) → r.reads i ≡ true) → identities r'.table ≡ identities r.table)
        × ((j : ℕ) (a : CookieAccount)
            → account_by_id j r.table ≡ some a
            → left_alone a ≡ true
            → account_by_id j r'.table ≡ some a)
  unfolding rotate_all_accounts
  rotate_all_accounts-identities url_of now_of r d = (
    (λ reads.
        let same =
          rotate_rows-Same true false 0 url_of now_of r.table default_rotate_interval r (λ y. reads)
            (unasked 0 r.table) d in
        same.accounts refl),
    (λ j a at alone.
        let kept =
          rotate_rows-Same false true j url_of now_of r.table default_rotate_interval r (λ y. cc)
            (asked j a r.table d at alone) d in
        kept.own refl ∙ at),
  )
