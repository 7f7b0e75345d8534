-- ===== src/Ingest/Rows.antt =====
-- browserStoreCookieSourceAuthUser: the row of a profile and an account slot.
use gemini_web2api_go_browse.Prelude.{
  ℕ, ◌≡◌, ◌≢◌, refl, sym, ap, ap₂, subst, ◌∙◌, inl, inr, Bool, true, false, not, ◌||◌, List, [],
  ◌∷◌, ◌++◌, none, some, arith, ◌==◌, if◌then◌else◌, Bool-cases, Option-cases, keep, map, All,
  is_empty, Text, text_eq_refl, append-nil,
}
use gemini_web2api_go_browse.CookiePool.Identity.{DistinctAccounts}
use gemini_web2api_go_browse.Ingest.{
  StoredRow, same_place, last_place, refreshed_row, update_stored, new_row, store_at, scanned,
  browser_store_cookie,
}

if_second {ℓ} : {A : Type ℓ} (a b : Bool) (x y : A) → b ≡ true → (if a || b then x else y) ≡ x
if_second true b x y e = refl
if_second false b x y e = rw e refl

module _ (profile : Text) (u : ℕ) where
  abbrev at_place : StoredRow → Bool
  at_place r = same_place profile u r

  abbrev elsewhere : StoredRow → Bool
  elsewhere r = not (same_place profile u r)

  none-here : (rows : List StoredRow) → last_place profile u rows ≡ none → keep at_place rows ≡ []
  unfolding last_place
  none-here [] e = refl
  none-here (r ∷ rows) e = elim (Option-cases (last_place profile u rows)) [
    | inl n ↦ elim (Bool-cases (same_place profile u r)) [
      | inl y ↦ absurd (let f : some r.row.id ≡ none = rw (n, y) at e in cc)
      | inr z ↦ rw z (none-here rows n)
    ]
    | inr (i, s) ↦ absurd (let f : some i ≡ none = rw s at e in cc)
  ]

  place_apart :
      (i k : ℕ) (rows : List StoredRow)
      → last_place profile u rows ≡ some i
      → All (λ b. b.id ≢ k) (map (λ r. r.row) rows)
      → i ≢ k
  unfolding last_place
  place_apart i k [] e h = absurd cc
  place_apart i k (r ∷ rows) e (n, h) = elim (Option-cases (last_place profile u rows)) [
    | inl none' ↦ elim (Bool-cases (same_place profile u r)) [
      | inl y ↦ λ same. n (let f : some r.row.id ≡ some i = rw (none', y) at e in cc)
      | inr z ↦ absurd (let f : none ≡ some i = rw (none', z) at e in cc)
    ]
    | inr (j, s) ↦ place_apart i k rows (let f : some j ≡ some i = rw s at e in s ∙ f) h
  ]

  place_taken :
      (i : ℕ) (rows : List StoredRow)
      → last_place profile u rows ≡ some i
      → is_empty (keep at_place rows) ≡ false
  unfolding last_place
  place_taken i [] e = absurd cc
  place_taken i (r ∷ rows) e = elim (Bool-cases (same_place profile u r)) [
    | inl y ↦ rw y refl
    | inr z ↦ elim (Option-cases (last_place profile u rows)) [
      | inl n ↦ absurd (let f : none ≡ some i = rw (n, z) at e in cc)
      | inr (j, s) ↦ rw z (place_taken j rows s)
    ]
  ]

  update_away :
      (i : ℕ) (f : StoredRow → StoredRow) (rows : List StoredRow)
      → All (λ b. b.id ≢ i) (map (λ r. r.row) rows)
      → update_stored i f rows ≡ rows
  unfolding update_stored
  update_away i f [] h = refl
  update_away i f (r ∷ rows) (n, h) = ground (arith, update_away i f rows h)

  keep-cleared :
      (i : ℕ) (rows : List StoredRow)
      → keep at_place rows ≡ []
      → keep (λ r. elsewhere r || r.row.id == i) rows ≡ rows
  keep-cleared i [] e = refl
  keep-cleared i (r ∷ rows) e = elim (Bool-cases (same_place profile u r)) [
    | inl y ↦ absurd (let f : r ∷ keep at_place rows ≡ [] = rw y at e in cc)
    | inr z ↦ rw z (ap (λ ts. r ∷ ts) (keep-cleared i rows (rw z at e)))
  ]

  keep-elsewhere : (rows : List StoredRow) → keep at_place rows ≡ [] → keep elsewhere rows ≡ rows
  keep-elsewhere [] e = refl
  keep-elsewhere (r ∷ rows) e = elim (Bool-cases (same_place profile u r)) [
    | inl y ↦ absurd (let f : r ∷ keep at_place rows ≡ [] = rw y at e in cc)
    | inr z ↦ rw z (ap (λ ts. r ∷ ts) (keep-elsewhere rows (rw z at e)))
  ]

  module _ (now : ℕ) (label cookie source : Text) where
    abbrev fresh_row : StoredRow → StoredRow
    fresh_row = refreshed_row now label cookie source u

    stays :
        (r : StoredRow) → same_place profile u r ≡ true → same_place profile u (fresh_row r) ≡ true
    unfolding same_place refreshed_row
    stays r y = ground arith

    -- The one row that a table keeps at a place, with what it was refreshed from.
    Replaced : ℕ → List StoredRow → List StoredRow → Type 0
    Replaced i table after =
        ((r : StoredRow) × (r.row.id ≡ i) × (keep at_place after ≡ fresh_row r ∷ []))
        × (keep elsewhere after ≡ keep elsewhere table)

    swept : ℕ → List StoredRow → List StoredRow
    swept i table = keep (λ r. elsewhere r || r.row.id == i) (update_stored i fresh_row table)

    module _ (i : ℕ) (r : StoredRow) (rows : List StoredRow) where
      swept-dropped :
          (r.row.id == i) ≡ false
          → same_place profile u r ≡ true
          → swept i (r ∷ rows) ≡ swept i rows
      unfolding swept update_stored
      swept-dropped off y = rw off (rw off (rw y refl))

      swept-passed :
          (r.row.id == i) ≡ false
          → same_place profile u r ≡ false
          → swept i (r ∷ rows) ≡ r ∷ swept i rows
      unfolding swept update_stored
      swept-passed off z = rw off (rw z refl)

      swept-taken :
          (r.row.id == i) ≡ true
          → All (λ b. b.id ≢ i) (map (λ r. r.row) rows)
          → keep at_place rows ≡ []
          → swept i (r ∷ rows) ≡ fresh_row r ∷ rows
      unfolding swept update_stored refreshed_row
      swept-taken on apart cleared =
          let away = update_away i fresh_row rows apart in
          let rest =
            ap (keep (λ r. elsewhere r || r.row.id == i)) away ∙ keep-cleared i rows cleared in
          rw on (
            if_second (elsewhere (fresh_row r)) ((fresh_row r).row.id == i) _ _ on
            ∙ ap (λ ts. fresh_row r ∷ ts) rest)

    swept-Replaced :
        (i : ℕ) (table : List StoredRow)
        → DistinctAccounts (map (λ r. r.row) table)
        → last_place profile u table ≡ some i
        → Replaced i table (swept i table)
    unfolding Replaced last_place
    swept-Replaced i [] d e = absurd cc
    swept-Replaced i (r ∷ rows) (apart, d) e = elim (Option-cases (last_place profile u rows)) [
      | inr (j, s) ↦
          let here : last_place profile u rows ≡ some i = s ∙ rw s at e in
          let n : i ≢ r.row.id = place_apart i r.row.id rows here apart in
          let off : (r.row.id == i) ≡ false = ground arith in
          let ((q, at, one), rest) = swept-Replaced i rows d here in
          elim (Bool-cases (same_place profile u r)) [
            | inl y ↦ rw (swept-dropped i r rows off y) (rw y ((q, at, one), rest))
            | inr z ↦ rw (swept-passed i r rows off z) (rw z ((q, at, one), ap (λ ts. r ∷ ts) rest))
          ]
      | inl n ↦ elim (Bool-cases (same_place profile u r)) [
        | inl y ↦
            let at : r.row.id ≡ i = let f : some r.row.id ≡ some i = rw (n, y) at e in cc in
            let on : (r.row.id == i) ≡ true = ground arith in
            let cleared = none-here rows n in
            let apart' = subst (λ k. All (λ b. b.id ≢ k) (map (λ r. r.row) rows)) at apart in
            rw (swept-taken i r rows on apart' cleared)
              (rw (y, stays r y) ((r, at, ap (λ ts. fresh_row r ∷ ts) cleared), refl))
        | inr z ↦ absurd (let f : none ≡ some i = rw (n, z) at e in cc)
      ]
    ]

keep-snoc {ℓ} :
    {A : Type ℓ} (f : A → Bool) (xs : List A) (x : A)
    → keep f (xs ++ x ∷ []) ≡ keep f xs ++ (if f x then x ∷ [] else [])
keep-snoc f [] x = refl
keep-snoc f (y ∷ xs) x = elim (Bool-cases (f y)) [
  | inl e ↦ rw e (ap (λ ts. y ∷ ts) (keep-snoc f xs x))
  | inr e ↦ rw e (keep-snoc f xs x)
]

-- The one row of a place after a store, whether it can be read back, and the rows of the other places.
unfoldable pub OneRow : Text → Text → Text → ℕ → List StoredRow → List StoredRow → Type 0
OneRow profile cookie source u table after =
    ((r : StoredRow) × (keep (same_place profile u) after ≡ r ∷ [])
      × (r.row.cookie ≡ cookie)
      × (r.row.source ≡ source)
      × (r.row.fail_count ≡ 0)
      × (scanned (keep (same_place profile u) after)
          ≡ (if is_empty (keep (same_place profile u) table) then [] else r.row ∷ [])))
    × (keep (λ r. not (same_place profile u r)) after
        ≡ keep (λ r. not (same_place profile u r)) table)

module _ (new_id now : ℕ) (label profile cookie source : Text) (u : ℕ) where
  abbrev row_new : StoredRow
  row_new = new_row new_id now label profile cookie source u

  new-here : same_place profile u row_new ≡ true
  unfolding same_place new_row
  new-here = rw (text_eq_refl profile) (ground arith)

  store_new :
      (table : List StoredRow)
      → last_place profile u table ≡ none
      → OneRow profile cookie source u table
          (store_at new_id now label profile cookie source u table none)
  unfolding store_at OneRow new_row scanned
  store_new table e =
      let cleared = none-here profile u table e in
      let one : keep (same_place profile u) (table ++ row_new ∷ []) ≡ row_new ∷ [] =
        keep-snoc (same_place profile u) table row_new
        ∙ ap₂ (λ ts b. ts ++ (if b then row_new ∷ [] else [])) cleared new-here in
      let others = keep-snoc (λ r. not (same_place profile u r)) table row_new in
      let kept =
        ap
          (λ b.
            keep (λ r. not (same_place profile u r)) table ++ (if not b then row_new ∷ [] else []))
          new-here in
      (
        (
          row_new,
          one,
          refl,
          refl,
          refl,
          ap scanned one ∙ sym (ap (λ ts. if is_empty ts then [] else row_new.row ∷ []) cleared),
        ),
        others ∙ kept ∙ append-nil (keep (λ r. not (same_place profile u r)) table),
      )

  store_again :
      (table : List StoredRow) (i : ℕ)
      → DistinctAccounts (map (λ r. r.row) table)
      → last_place profile u table ≡ some i
      → OneRow profile cookie source u table
          (store_at new_id now label profile cookie source u table (some i))
  unfolding store_at OneRow Replaced refreshed_row swept scanned
  store_again table i d e =
      let ((r, at, one), others) = swept-Replaced profile u now label cookie source i table d e in
      (
        (
          refreshed_row now label cookie source u r,
          one,
          refl,
          refl,
          refl,
          ap scanned one
              ∙ sym (
                  ap (λ b. if b then [] else (refreshed_row now label cookie source u r).row ∷ [])
                    (place_taken profile u i table e)),
        ),
        others,
      )

-- On rows with distinct ids: after a store, the profile and the account slot have one row, with the new
-- cookie and source and no failures; it can be read back exactly where they had a row before; and the rows
-- of every other profile and slot are as they were.
pub browser_store_cookie-OneRow :
    (new_id now : ℕ) (label profile cookie source : Text) (u : ℕ) (table : List StoredRow)
    → DistinctAccounts (map (λ r. r.row) table)
    → OneRow profile cookie source u table
        (browser_store_cookie new_id now label profile cookie source u table)
unfolding browser_store_cookie
browser_store_cookie-OneRow new_id now label profile cookie source u table d =
    elim (Option-cases (last_place profile u table)) [
      | inl n ↦ rw n (store_new new_id now label profile cookie source u table n)
      | inr (i, s) ↦ rw s (store_again new_id now label profile cookie source u table i d s)
    ]
