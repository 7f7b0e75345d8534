-- ===== src/Ingest/Accepts.antt =====
-- handleBrowserIngest: what a cookie that a browser pushes has to be before it is stored.
use gemini_web2api_go_browse.Prelude.{
  map, ltb, some_injective, some_ne_none, if◌then◌else◌, ℕ, ℤ, pos, negsuc, ◌<◌, ◌≡◌, ◌≢◌, refl,
  sym, ◌∙◌, inl, inr, Bool, true, false, not, ◌&&◌, ◌||◌, List, Option, none, some, arith,
  Bool-cases, Text, codes, text_eq, text_eq_iff, is_empty,
}
use gemini_web2api_go_browse.CookiePool.{trim_space, extract_sapisid}
use gemini_web2api_go_browse.AuthUser.{
  auth_user_from_profile, is_legacy_multi_account_profile, atoi,
}
use gemini_web2api_go_browse.AuthUser.Bounds.{auth_user_from_profile-below}
use gemini_web2api_go_browse.ModelGuard.{lower}
use gemini_web2api_go_browse.CookiePool.Identity.{DistinctAccounts}
use gemini_web2api_go_browse.Ingest.Rows.{OneRow, browser_store_cookie-OneRow}
use gemini_web2api_go_browse.Ingest.{
  sanitize_profile_name, label_for, PageIdentity, SlotCheck, confirmed, not_signed_in, other_slot,
  other_email, no_email, slot_differs, check_slot_identity, IngestBody, StoredRow, Ingested,
  legacy_profile, no_cookie, not_logged_in, incomplete_cookie, bad_slot, unverified,
  slot_unreachable, stored, contains, slot_from_account, requested_slot, profile_of, logged_out,
  by_check, verified, with_slot, handle_browser_ingest,
}

-- The page is signed in, of the slot where it names one, and of the account that is wanted.
unfoldable pub Vouches : PageIdentity → ℕ → Text → Type 0
Vouches page authuser want_email =
    (page.logged_in ≡ true)
    × ((n : ℕ) → page.slot ≡ some n → n ≡ authuser)
    × (is_empty (lower (trim_space want_email)) ≡ false
        → page.email ≡ lower (trim_space want_email))

unfoldable pub Fits : IngestBody → Text → ℕ → Type 0
Fits p profile authuser =
    (is_legacy_multi_account_profile profile ≡ false)
    × (is_empty (extract_sapisid (trim_space p.cookie)) ≡ false)
    × (contains (codes "__Secure-1PSID=") (trim_space p.cookie) ≡ true)
    × (p.logged_in ≢ some false)
    × (authuser < 10)
    × ((n : ℕ) → p.page_authuser ≡ some (pos n) → authuser ≡ n)
    × (profile
        ≡ sanitize_profile_name
            (if is_empty (trim_space p.profile) then codes "remote1" else trim_space p.profile))

Checked : PageIdentity → ℕ → Text → SlotCheck → Type 0
Checked page u want (confirmed q) = (q ≡ page) × Vouches page u want
Checked page u want not_signed_in = Unit {0}
Checked page u want other_slot = Unit {0}
Checked page u want other_email = Unit {0}
Checked page u want no_email = Unit {0}

slot_same : (u : ℕ) (s : Option ℕ) → slot_differs u s ≡ false → (n : ℕ) → s ≡ some n → n ≡ u
unfolding slot_differs
slot_same u none d n e = absurd cc
slot_same u (some m) d n e = let at : m ≡ u = ground arith in let same : m ≡ n = cc in sym same ∙ at

email_same :
    (want email : Text)
    → (not (is_empty want) && not (is_empty email) && not (text_eq email want)) ≡ false
    → (not (is_empty want) && is_empty email) ≡ false
    → is_empty want ≡ false
    → email ≡ want
email_same want email other blank w = elim (Bool-cases (text_eq email want)) [
  | inl y ↦ (text_eq_iff email want).0 y
  | inr z ↦ absurd (grind arith)
]

check_slot_identity-Checked :
    (page : PageIdentity) (u : ℕ) (want : Text)
    → Checked page u want (check_slot_identity page u want)
unfolding check_slot_identity Checked Vouches
check_slot_identity-Checked page u email =
    let want = lower (trim_space email) in
    elim (Bool-cases page.logged_in) [
      | inr out ↦ rw out tt
      | inl signed ↦ elim (Bool-cases (slot_differs u page.slot)) [
        | inl d ↦ rw (signed, d) tt
        | inr s ↦
            elim (Bool-cases
              (not (is_empty want) && not (is_empty page.email) && not (text_eq page.email want))) [
                | inl o ↦ rw (signed, s) (rw o tt)
                | inr same ↦ elim (Bool-cases (not (is_empty want) && is_empty page.email)) [
                  | inl b ↦ rw (signed, s) (rw (same, b) tt)
                  | inr named ↦
                      rw (signed, s)
                        (rw (same, named)
                          (
                            refl,
                            (refl, slot_same u page.slot s, email_same want page.email same named),
                          ))
                ]
              ]
      ]
    ]

account_slot-small : (n : Option ℕ) (u : ℕ) → slot_from_account n ≡ some u → u < 10
unfolding slot_from_account
account_slot-small none u e = absurd cc
account_slot-small (some n) u e = ground arith

requested_slot-small :
    (p : IngestBody) (profile : Text) (z : Option ℤ) (u : ℕ)
    → requested_slot p profile z ≡ some u
    → u < 10
unfolding requested_slot
requested_slot-small p profile (some (pos n)) u e = ground arith
requested_slot-small p profile (some (negsuc n)) u e = absurd cc
requested_slot-small p profile none u e = elim (Bool-cases (is_empty (trim_space p.account))) [
  | inl y ↦
      let at : some (auth_user_from_profile profile) ≡ some u = rw y at e in
      ground (arith, auth_user_from_profile-below profile)
  | inr z ↦ account_slot-small (atoi (trim_space p.account)) u (rw z at e)
]

-- What is stored fits and is vouched for by the page of its slot, and its row is the one of that profile and
-- slot, with the cookie that was pushed; where nothing is stored, no row changes.
unfoldable pub Accepts :
    (Text → ℕ → Option PageIdentity)
    → IngestBody
    → List StoredRow
    → Ingested × List StoredRow
    → Type 0
Accepts page_of p table (stored profile u, after) =
    Fits p profile u
    × ((page : PageIdentity) × (page_of (trim_space p.cookie) u ≡ some page)
        × Vouches page u p.account_email)
    × OneRow profile (trim_space p.cookie) (codes "remote") u table after
Accepts page_of p table (legacy_profile, after) = after ≡ table
Accepts page_of p table (no_cookie, after) = after ≡ table
Accepts page_of p table (not_logged_in, after) = after ≡ table
Accepts page_of p table (incomplete_cookie, after) = after ≡ table
Accepts page_of p table (bad_slot, after) = after ≡ table
Accepts page_of p table (unverified c, after) = after ≡ table
Accepts page_of p table (slot_unreachable, after) = after ≡ table

module _ (page_of : Text → ℕ → Option PageIdentity) (new_id now : ℕ) (p : IngestBody)
    (table : List StoredRow) (distinct : DistinctAccounts (map (λ r. r.row) table)) where
  by_check-Accepts :
      (profile : Text) (u : ℕ) (page : PageIdentity) (c : SlotCheck)
      → page_of (trim_space p.cookie) u ≡ some page
      → Fits p profile u
      → Checked page u p.account_email c
      → Accepts page_of p table
          (by_check page_of new_id now p profile (trim_space p.cookie) u c table)
  unfolding by_check Accepts Checked label_for
  by_check-Accepts profile u page (confirmed q) at fits (same, ok) = (
    fits,
    (page, at, ok),
    browser_store_cookie-OneRow new_id now (label_for p profile q) profile (trim_space p.cookie)
        (codes "remote") u table distinct,
  )
  by_check-Accepts profile u page not_signed_in at fits ok = refl
  by_check-Accepts profile u page other_slot at fits ok = refl
  by_check-Accepts profile u page other_email at fits ok = refl
  by_check-Accepts profile u page no_email at fits ok = refl

  verified-Accepts :
      (profile : Text) (u : ℕ) (page : Option PageIdentity)
      → page_of (trim_space p.cookie) u ≡ page
      → Fits p profile u
      → Accepts page_of p table
          (verified page_of new_id now p profile (trim_space p.cookie) u page table)
  unfolding verified Accepts
  verified-Accepts profile u none at fits = refl
  verified-Accepts profile u (some page) at fits =
      by_check-Accepts profile u page (check_slot_identity page u p.account_email) at fits
        (check_slot_identity-Checked page u p.account_email)

  with_slot-Accepts :
      (profile : Text) (slot : Option ℕ)
      → ((u : ℕ) → slot ≡ some u → Fits p profile u)
      → Accepts page_of p table
          (with_slot page_of new_id now p profile (trim_space p.cookie) slot table)
  unfolding with_slot Accepts
  with_slot-Accepts profile none fits = refl
  with_slot-Accepts profile (some u) fits =
      verified-Accepts profile u (page_of (trim_space p.cookie) u) refl (fits u refl)

slot_asked :
    (p : IngestBody) (profile : Text) (z : Option ℤ) (u n : ℕ)
    → requested_slot p profile z ≡ some u
    → z ≡ some (pos n)
    → u ≡ n
unfolding requested_slot
slot_asked p profile none u n e z = absurd cc
slot_asked p profile (some (negsuc m)) u n e z = absurd cc
slot_asked p profile (some (pos m)) u n e z =
    let same : m ≡ n = cc in
    elim (Bool-cases (ltb 9 m)) [
      | inl y ↦ absurd (some_ne_none (sym (rw y at e)))
      | inr k ↦ sym (some_injective (rw k at e)) ∙ same
    ]

logged_out-said : (o : Option Bool) → logged_out o ≡ false → o ≢ some false
unfolding logged_out
logged_out-said none e = λ f. absurd cc
logged_out-said (some true) e = λ f. absurd cc
logged_out-said (some false) e = absurd cc

not_or : (a b : Bool) → (a || not b) ≡ false → (a ≡ false) × (b ≡ true)
not_or a b e = (grind arith, grind arith)

-- For every pushed cookie, whatever the pages of its slots show, on rows with distinct ids: it is stored
-- only under the slot below 10, the one of the bound page where that is given, whose page, opened with
-- that cookie, is signed in, names no other slot and is of the account that was named, where one was;
-- with SAPISID and __Secure-1PSID in it, not reported as signed out, and under its sanitized profile,
-- which is not of the old kind. Then that profile and slot have one row, with that cookie, and the rows of
-- other places are as they were; and where it is not stored, no row changes.
pub handle_browser_ingest-Accepts :
    (page_of : Text → ℕ → Option PageIdentity) (new_id now : ℕ) (p : IngestBody)
    (table : List StoredRow)
    → DistinctAccounts (map (λ r. r.row) table)
    → Accepts page_of p table (handle_browser_ingest page_of new_id now p table)
unfolding handle_browser_ingest Accepts Fits profile_of
handle_browser_ingest-Accepts page_of new_id now p table distinct =
    let profile = profile_of p in
    let cookie = trim_space p.cookie in
    elim (Bool-cases (is_legacy_multi_account_profile profile)) [
      | inl l ↦ rw l refl
      | inr legacy ↦ elim (Bool-cases (is_empty cookie)) [
        | inl n ↦ rw (legacy, n) refl
        | inr given ↦ elim (Bool-cases (logged_out p.logged_in)) [
          | inl o ↦ rw (legacy, given) (rw o refl)
          | inr signed ↦
              elim (Bool-cases (
                is_empty (extract_sapisid cookie)
                || not (contains (codes "__Secure-1PSID=") cookie))) [
                  | inl i ↦ rw (legacy, given) (rw (signed, i) refl)
                  | inr whole ↦
                      let (sapisid, psid) = not_or _ _ whole in
                      rw (legacy, given)
                        (rw (signed, whole)
                          (with_slot-Accepts page_of new_id now p table distinct profile
                            (requested_slot p profile p.page_authuser)
                            (λ u e. (
                              legacy,
                              sapisid,
                              psid,
                              logged_out-said p.logged_in signed,
                              requested_slot-small p profile p.page_authuser u e,
                              (λ n. slot_asked p profile p.page_authuser u n e),
                              refl,
                            ))))
                ]
        ]
      ]
    ]
