-- ===== src/CookiePool/Kept.antt =====
-- The writes to the rows that change no cookie: whose they are stays the same.
use gemini_web2api_go_browse.Prelude.{
  ℕ, ◌≡◌, ◌≢◌, refl, sym, ap, ap₂, subst, ◌∙◌, ◌↔◌, inl, inr, Bool, true, false, ◌&&◌, ◌||◌, not,
  List, [], ◌∷◌, Option, none, some, ltb, ◌==◌, keep, All, Bool-cases, Text, text_eq, is_empty,
}
use gemini_web2api_go_browse.CookiePool.{
  CookieAccount, cookie_identity, enabled, account_by_id, update_account, auto_disable_if_dead,
  disable_row, dead, failed_row, mark_account_result, mark_cookie_by_status, truncate, first_not_in,
  order_rows, take_account, pick_cookie_account_except, bind_account_proxy,
}
use gemini_web2api_go_browse.CookiePool.Identity.{identities, DistinctAccounts}

abbrev OtherThan : ℕ → List (ℕ × Text) → Type 0
OtherThan i = All λ x. x.0 ≢ i

abbrev Apart : List (ℕ × Text) → Type 0
Apart [] = Unit {0}
Apart (x ∷ xs) = OtherThan x.0 xs × Apart xs

others :
    (i : ℕ) (rows : List CookieAccount) → All (λ b. b.id ≢ i) rows ↔ OtherThan i (identities rows)
others i [] = (λ h. h, λ h. h)
others i (a ∷ rows) =
    let (into, out) = others i rows in ((λ (n, h). (n, into h)), (λ (n, h). (n, out h)))

Apart-identities : (rows : List CookieAccount) → DistinctAccounts rows ↔ Apart (identities rows)
Apart-identities [] = (λ h. h, λ h. h)
Apart-identities (a ∷ rows) =
    let (into, out) = Apart-identities rows in
    let (into', out') = others a.id rows in
    ((λ (h, d). (into' h, into d)), (λ (h, d). (out' h, out d)))

-- Rows of the same accounts have distinct ids alike.
pub identities-DistinctAccounts :
    (before after : List CookieAccount)
    → identities after ≡ identities before
    → DistinctAccounts before
    → DistinctAccounts after
identities-DistinctAccounts before after e d =
    (Apart-identities after).1 (subst Apart (sym e) ((Apart-identities before).0 d))

module _ (i : ℕ) (f : CookieAccount → CookieAccount)
    (same : (a : CookieAccount) → ((f a).id ≡ a.id) × ((f a).cookie ≡ a.cookie)) where
  update_account-identities :
      (rows : List CookieAccount) → identities (update_account i f rows) ≡ identities rows
  unfolding update_account
  update_account-identities [] = refl
  update_account-identities (a ∷ rows) = elim (Bool-cases (a.id == i)) [
    | inl y ↦
        let (id_same, cookie_same) = same a in
        rw y (
          ap₂ (◌∷◌) (ap₂ (λ (n : ℕ) (t : Text). (n, cookie_identity t)) id_same cookie_same)
            (update_account-identities rows))
    | inr n ↦ rw n (ap (λ t. (a.id, cookie_identity a.cookie) ∷ t) (update_account-identities rows))
  ]

taken :
    (o : Option CookieAccount) (now : ℕ) (rows : List CookieAccount)
    → identities (take_account now o rows).1 ≡ identities rows
unfolding take_account
taken none now rows = refl
taken (some a) now rows =
    update_account-identities a.id (λ r. record r { last_used_at = now }) (λ r. (refl, refl)) rows

pub pick-identities :
    (answers : Bool) (scans : CookieAccount → Bool) (now : ℕ) (skip : ℕ → Bool)
    (rows : List CookieAccount)
    → identities (pick_cookie_account_except answers scans now skip rows).1 ≡ identities rows
unfolding pick_cookie_account_except
pick-identities true scans now skip rows =
    taken
      (first_not_in (λ a. not (scans a) || skip a.id)
        (order_rows (keep (λ a. text_eq a.status enabled) rows)))
      now rows
pick-identities false scans now skip rows = refl

pub bind-identities :
    (i proxy : ℕ) (rows : List CookieAccount)
    → identities (bind_account_proxy i proxy rows) ≡ identities rows
unfolding bind_account_proxy
bind-identities i proxy rows = elim (Bool-cases (i == 0)) [
  | inl y ↦ rw y refl
  | inr n ↦
      rw n
        (update_account-identities i (λ a. record a { proxy_id = proxy }) (λ a. (refl, refl)) rows)
]

disable_row_same :
    (a : CookieAccount) → ((disable_row a).id ≡ a.id) × ((disable_row a).cookie ≡ a.cookie)
unfolding disable_row
disable_row_same a = elim (Bool-cases (text_eq a.status enabled)) [
  | inl y ↦ rw y (refl, refl)
  | inr n ↦ rw n (refl, refl)
]

disable-identities :
    (i : ℕ) (rows : List CookieAccount) → identities (auto_disable_if_dead i rows) ≡ identities rows
unfolding auto_disable_if_dead
disable-identities i rows = elim (Bool-cases (dead (account_by_id i rows))) [
  | inl y ↦ rw y (update_account-identities i disable_row disable_row_same rows)
  | inr n ↦ rw n refl
]

result-identities :
    (now i : ℕ) (success : Bool) (error : Text) (rows : List CookieAccount)
    → identities (mark_account_result now i success error rows) ≡ identities rows
unfolding mark_account_result failed_row
result-identities now i success error rows = elim (Bool-cases (i == 0)) [
  | inl y ↦ rw y refl
  | inr n ↦ elim (Bool-cases success) [
    | inl y ↦ rw n (
        rw y (
          update_account-identities i
            (λ a. record a { last_ok_at = now; fail_count = 0; last_error = [] })
            (λ a. (refl, refl)) rows))
    | inr z ↦ rw n (
        rw z (
          disable-identities i (update_account i (failed_row (truncate error 200)) rows)
          ∙ update_account-identities i (failed_row (truncate error 200)) (λ a. (refl, refl)) rows))
  ]
]

pub mark-identities :
    (now i status : ℕ) (error : Text) (rows : List CookieAccount)
    → identities (mark_cookie_by_status now i status error rows) ≡ identities rows
unfolding mark_cookie_by_status
mark-identities now i status error rows = elim (Bool-cases (status == 200)) [
  | inl y ↦ rw y (result-identities now i true [] rows)
  | inr n ↦ elim (Bool-cases (status == 401 || status == 403)) [
    | inl y ↦ rw (n, y) (result-identities now i false error rows)
    | inr z ↦ elim (Bool-cases (ltb 0 i && not (is_empty error))) [
      | inl y ↦
          rw (n, z)
            (rw y (
              update_account-identities i (λ a. record a { last_error = truncate error 200 })
                (λ a. (refl, refl)) rows))
      | inr x ↦ rw (n, z) (rw x refl)
    ]
  ]
]
