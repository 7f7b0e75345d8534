-- ===== src/CookiePool/Identity.antt =====
-- updateAccountCookie: no write changes the account that a row's cookie belongs to.
use gemini_web2api_go_browse.Prelude.{
  ℕ, Bool, false, not, if◌then◌else◌, ◌≡◌, ◌≢◌, refl, ap, ap₂, subst, true, ◌||◌, List, [], ◌∷◌,
  arith, ◌==◌, map, All, Bool-cases, inl, inr, Text, text_eq_iff, is_empty,
}
use gemini_web2api_go_browse.CookiePool.Health.{not_updated}
use gemini_web2api_go_browse.CookiePool.{
  CookieAccount, cookie_identity, update_account, account_by_id, same_identity,
  update_account_cookie,
}

-- The identity of the session in each row, in the order of the rows.
abbrev pub identities : List CookieAccount → List (ℕ × Text)
identities = map λ a. (a.id, cookie_identity a.cookie)

abbrev pub DistinctAccounts : List CookieAccount → Type 0
DistinctAccounts [] = Unit {0}
DistinctAccounts (a ∷ rows) = All (λ b. b.id ≢ a.id) rows × DistinctAccounts rows

update_absent :
    (i : ℕ) (f : CookieAccount → CookieAccount) (rows : List CookieAccount)
    → All (λ b. b.id ≢ i) rows
    → update_account i f rows ≡ rows
unfolding update_account
update_absent i f [] h = refl
update_absent i f (a ∷ rows) (n, h) = ground (arith, update_absent i f rows h)

update_keeps :
    (i : ℕ) (cookie : Text) (rows : List CookieAccount)
    → DistinctAccounts rows
    → same_identity cookie (account_by_id i rows) ≡ true
    → identities (update_account i (λ a. record a { cookie = cookie }) rows) ≡ identities rows
unfolding update_account same_identity account_by_id
update_keeps i cookie [] d y = refl
update_keeps i cookie (a ∷ rows) (apart, d) y = elim (Bool-cases (a.id == i)) [
  | inl here ↦
      let at : a.id ≡ i = ground arith in
      let e : cookie_identity cookie ≡ cookie_identity a.cookie =
        (text_eq_iff (cookie_identity cookie) (cookie_identity a.cookie)).0 (rw here at y) in
      rw here (
        ap₂ (λ (t : Text) (ts : List CookieAccount). (a.id, t) ∷ identities ts) e
          (update_absent i (λ r. record r { cookie = cookie }) rows
            (subst (λ k. All (λ b. b.id ≢ k) rows) at apart)))
  | inr there ↦ rw there (
      ap (λ ts. (a.id, cookie_identity a.cookie) ∷ ts)
        (update_keeps i cookie rows d (rw there at y)))
]

-- A write of a cookie changes no other row.
pub update_account_cookie_other :
    (read_ok : Bool) (i j : ℕ) (cookie : Text) (rows : List CookieAccount)
    → j ≢ i
    → account_by_id j (update_account_cookie read_ok i cookie rows) ≡ account_by_id j rows
unfolding update_account_cookie
update_account_cookie_other read_ok i j cookie rows n =
    elim (Bool-cases (i == 0 || is_empty cookie)) [
      | inl y ↦ rw y refl
      | inr z ↦ elim (Bool-cases (not read_ok || same_identity cookie (account_by_id i rows))) [
        | inl y ↦ rw (z, y) (not_updated i (λ a. record a { cookie = cookie }) (λ a. refl) j rows n)
        | inr x ↦ rw (z, x) refl
      ]
    ]

All-update :
    (i k : ℕ) (cookie : Text) (rows : List CookieAccount)
    → All (λ b. b.id ≢ k) rows
    → All (λ b. b.id ≢ k) (update_account i (λ a. record a { cookie = cookie }) rows)
unfolding update_account
All-update i k cookie [] h = tt
All-update i k cookie (b ∷ rows) (n, h) = elim (Bool-cases (b.id == i)) [
  | inl y ↦ rw y (n, All-update i k cookie rows h)
  | inr z ↦ rw z (n, All-update i k cookie rows h)
]

update_account-DistinctAccounts :
    (i : ℕ) (cookie : Text) (rows : List CookieAccount)
    → DistinctAccounts rows
    → DistinctAccounts (update_account i (λ a. record a { cookie = cookie }) rows)
unfolding update_account
update_account-DistinctAccounts i cookie [] d = tt
update_account-DistinctAccounts i cookie (b ∷ rows) (apart, d) = elim (Bool-cases (b.id == i)) [
  | inl y ↦
      rw y (All-update i b.id cookie rows apart, update_account-DistinctAccounts i cookie rows d)
  | inr z ↦
      rw z (All-update i b.id cookie rows apart, update_account-DistinctAccounts i cookie rows d)
]

pub update_account_cookie-DistinctAccounts :
    (read_ok : Bool) (i : ℕ) (cookie : Text) (rows : List CookieAccount)
    → DistinctAccounts rows
    → DistinctAccounts (update_account_cookie read_ok i cookie rows)
unfolding update_account_cookie
update_account_cookie-DistinctAccounts read_ok i cookie rows d =
    elim (Bool-cases (i == 0 || is_empty cookie)) [
      | inl y ↦ rw y d
      | inr z ↦ elim (Bool-cases (not read_ok || same_identity cookie (account_by_id i rows))) [
        | inl y ↦ rw (z, y) (update_account-DistinctAccounts i cookie rows d)
        | inr x ↦ rw (z, x) d
      ]
    ]

-- Where the row is read, no row changes its account.
pub update_account_cookie_keeps :
    (i : ℕ) (cookie : Text) (table : List CookieAccount)
    → DistinctAccounts table
    → identities (update_account_cookie true i cookie table) ≡ identities table
unfolding update_account_cookie
update_account_cookie_keeps i cookie table d = elim (Bool-cases (i == 0 || is_empty cookie)) [
  | inl skip ↦ rw skip refl
  | inr go ↦ elim (Bool-cases (same_identity cookie (account_by_id i table))) [
    | inl y ↦ rw (go, y) (update_keeps i cookie table d y)
    | inr n ↦ rw (go, n) refl
  ]
]

-- The account of one row, as another cookie makes it.
abbrev pub moved : ℕ → Text → ℕ × Text → ℕ × Text
moved i cookie (j, identity) = if j == i then (j, cookie_identity cookie) else (j, identity)

update_moves :
    (i : ℕ) (cookie : Text) (rows : List CookieAccount)
    → identities (update_account i (λ a. record a { cookie = cookie }) rows)
      ≡ map (moved i cookie) (identities rows)
unfolding update_account
update_moves i cookie [] = refl
update_moves i cookie (a ∷ rows) = elim (Bool-cases (a.id == i)) [
  | inl y ↦ rw y (ap (λ ts. (a.id, cookie_identity cookie) ∷ ts) (update_moves i cookie rows))
  | inr n ↦ rw n (ap (λ ts. (a.id, cookie_identity a.cookie) ∷ ts) (update_moves i cookie rows))
]

-- For every id and cookie, on rows with distinct ids: where the database answers the read of the row, a
-- write of a refreshed cookie leaves every row with the identity, SAPISID and __Secure-1PSID, that it
-- had; where the read fails, the row of the id takes the identity of the cookie, whatever that is, unless
-- the id is 0 or the cookie is empty, and every other row keeps its own.
pub update_account_cookie-identities :
    (i : ℕ) (cookie : Text) (table : List CookieAccount)
    → DistinctAccounts table
    → (identities (update_account_cookie true i cookie table) ≡ identities table)
      × (identities (update_account_cookie false i cookie table) ≡ (
          if i == 0 || is_empty cookie
          then identities table
          else map (moved i cookie) (identities table)))
unfolding update_account_cookie
update_account_cookie-identities i cookie table d = (
  update_account_cookie_keeps i cookie table d,
  elim (Bool-cases (i == 0 || is_empty cookie)) [
    | inl skip ↦ rw skip refl
    | inr go ↦ rw go (update_moves i cookie table)
  ],
)
