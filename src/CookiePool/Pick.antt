-- ===== src/CookiePool/Pick.antt =====
-- pickCookieAccountExcept: which account is picked, and what is recorded of it.
use gemini_web2api_go_browse.Prelude.{
  ℕ, Option, not, ◌||◌, ◌≤◌, ◌<◌, ◌≡◌, refl, sym, subst, Bool, true, false, List, [], ◌∷◌, none,
  some, arith, ltb, keep, All, In, In-cons, All-In, ◌↔◌, In-keep, keep-In, Bool-cases, inl, inr,
  ◌⊎◌, some_injective, some_ne_none, text_eq, text_eq_iff, Option-cases,
}
use gemini_web2api_go_browse.CookiePool.{
  CookieAccount, enabled, before, insert_row, order_rows, first_not_in, take_account,
  update_account, pick_cookie_account_except,
}

before_refuse : (a b : CookieAccount) → before a b ≡ false → before b a ≡ true
unfolding before
before_refuse a b h = ground arith

before_trans : (a b c : CookieAccount) → before a b ≡ true → before b c ≡ true → before a c ≡ true
unfolding before
before_trans a b c h k = ground arith

abbrev First : CookieAccount → List CookieAccount → Type 0
First a rows = All (λ b. before a b ≡ true) rows

abbrev Ordered : List CookieAccount → Type 0
Ordered [] = Unit {0}
Ordered (a ∷ rows) = First a rows × Ordered rows

All-from :
    (P : CookieAccount → Type 0) (rows : List CookieAccount)
    → ((a : CookieAccount) → In a rows → P a)
    → All P rows
All-from P [] h = tt
All-from P (a ∷ rows) h = (h a (0, refl), All-from P rows (λ b at. h b (In-cons b a rows at)))

insert_row-All :
    (P : CookieAccount → Type 0) (a : CookieAccount) (rows : List CookieAccount)
    → P a × All P rows ↔ All P (insert_row a rows)
unfolding insert_row
insert_row-All P a [] = (λ h. h, λ h. h)
insert_row-All P a (b ∷ rows) = elim (Bool-cases (before a b)) [
  | inl y ↦ rw y (λ h. h, λ h. h)
  | inr n ↦
      let (into, out) = insert_row-All P a rows in
      rw n ((λ (p, (q, ps)). (q, into (p, ps))), (λ (q, h). let (p, ps) = out h in (p, (q, ps))))
]

order_rows-All :
    (P : CookieAccount → Type 0) (rows : List CookieAccount) → All P rows ↔ All P (order_rows rows)
unfolding order_rows
order_rows-All P [] = (λ h. h, λ h. h)
order_rows-All P (a ∷ rows) =
    let (into, out) = order_rows-All P rows in
    let (into', out') = insert_row-All P a (order_rows rows) in
    ((λ (p, ps). into' (p, into ps)), (λ h. let (p, ps) = out' h in (p, out ps)))

First-trans :
    (a b : CookieAccount) (rows : List CookieAccount)
    → before a b ≡ true
    → First b rows
    → First a rows
First-trans a b [] y h = tt
First-trans a b (c ∷ rows) y (k, h) = (before_trans a b c y k, First-trans a b rows y h)

insert_row-Ordered :
    (a : CookieAccount) (rows : List CookieAccount) → Ordered rows → Ordered (insert_row a rows)
unfolding insert_row
insert_row-Ordered a [] h = (tt, tt)
insert_row-Ordered a (b ∷ rows) (f, h) = elim (Bool-cases (before a b)) [
  | inl y ↦ rw y ((y, First-trans a b rows y f), (f, h))
  | inr n ↦ rw n (
    (insert_row-All (λ c. before b c ≡ true) a rows).0 (before_refuse a b n, f),
    insert_row-Ordered a rows h,
  )
]

order_rows-Ordered : (rows : List CookieAccount) → Ordered (order_rows rows)
unfolding order_rows
order_rows-Ordered [] = tt
order_rows-Ordered (a ∷ rows) = insert_row-Ordered a (order_rows rows) (order_rows-Ordered rows)

before_self : (a : CookieAccount) → before a a ≡ true
unfolding before
before_self a = ground arith

All-weaken :
    (P Q : CookieAccount → Type 0)
    → ((a : CookieAccount) → P a → Q a)
    → (rows : List CookieAccount) → All P rows
    → All Q rows
All-weaken P Q f [] h = tt
All-weaken P Q f (a ∷ rows) (p, h) = (f a p, All-weaken P Q f rows h)

-- What the loop over the ordered rows finds: the first row of those that are not passed over.
first_found :
    (P : CookieAccount → Type 0) (passed : CookieAccount → Bool) (rows : List CookieAccount)
    (a : CookieAccount)
    → All P rows
    → Ordered rows
    → first_not_in passed rows ≡ some a
    → P a × (passed a ≡ false) × All (λ b. passed b ≡ false → before a b ≡ true) rows
unfolding first_not_in
first_found P passed [] a ps o e = absurd (some_ne_none (sym e))
first_found P passed (b ∷ rows) a (p, ps) (f, o) e = elim (Bool-cases (passed b)) [
  | inl y ↦
      let (pa, kept, first) = first_found P passed rows a ps o (rw y at e) in
      (pa, kept, ((λ n. absurd (cc)), first))
  | inr n ↦
      let same : b ≡ a = some_injective (rw n at e) in
      subst
        (λ c. P c × (passed c ≡ false) × All (λ b. passed b ≡ false → before c b ≡ true) (b ∷ rows))
        same (p, n, ((λ k. before_self b), All-weaken _ _ (λ c y k. y) rows f))
]

none_found :
    (passed : CookieAccount → Bool) (rows : List CookieAccount)
    → first_not_in passed rows ≡ none
    → All (λ b. passed b ≡ true) rows
unfolding first_not_in
none_found passed [] e = tt
none_found passed (b ∷ rows) e = elim (Bool-cases (passed b)) [
  | inl y ↦ (y, none_found passed rows (rw y at e))
  | inr n ↦ absurd (some_ne_none (rw n at e))
]

-- The rows that a pick may take.
abbrev pub Candidate :
    (CookieAccount → Bool) → (ℕ → Bool) → List CookieAccount → CookieAccount → Type 0
Candidate scans skip table a =
    In a table × (a.status ≡ enabled) × (scans a ≡ true) × (skip a.id ≡ false)

-- The order of a pick: by failures, then by the time of the last use, then by id.
abbrev pub Earlier : CookieAccount → CookieAccount → Type 0
Earlier a b =
    (a.fail_count < b.fail_count)
    ⊎ ((a.fail_count ≡ b.fail_count)
        × ((a.last_used_at < b.last_used_at) ⊎ ((a.last_used_at ≡ b.last_used_at) × (a.id ≤ b.id))))

before-Earlier : (a b : CookieAccount) → before a b ≡ true → Earlier a b
unfolding before
before-Earlier a b y = elim (Bool-cases (ltb a.fail_count b.fail_count)) [
  | inl f ↦ inl (ground arith)
  | inr nf ↦ elim (Bool-cases (ltb a.last_used_at b.last_used_at)) [
    | inl l ↦ inr (ground arith, inl (ground arith))
    | inr nl ↦ inr (ground arith, inr (ground arith, ground arith))
  ]
]

-- What a pick comes to where the database answers.
abbrev FirstFound :
    (CookieAccount → Bool)
    → ℕ
    → (ℕ → Bool)
    → List CookieAccount
    → Option CookieAccount × List CookieAccount
    → Type 0
FirstFound scans now skip table (picked, table') =
    ((a : CookieAccount) × Candidate scans skip table a
      × ((b : CookieAccount) → Candidate scans skip table b → Earlier a b)
      × (picked ≡ some (record a { authuser = 0 }))
      × (table' ≡ update_account a.id (λ r. record r { last_used_at = now }) table))
    ⊎ (((b : CookieAccount) → In b table → b.status ≡ enabled → scans b ≡ true → skip b.id ≡ true)
        × (picked ≡ none)
        × (table' ≡ table))

free_of : (s k : Bool) → (not s || k) ≡ false → (s ≡ true) × (k ≡ false)
free_of s k e = (ground arith, ground arith)

pick_found :
    (scans : CookieAccount → Bool) (now : ℕ) (skip : ℕ → Bool) (table : List CookieAccount)
    → FirstFound scans now skip table (pick_cookie_account_except true scans now skip table)
unfolding pick_cookie_account_except take_account
pick_found scans now skip table =
    let on : CookieAccount → Bool = λ a. text_eq a.status enabled in
    let passed : CookieAccount → Bool = λ a. not (scans a) || skip a.id in
    let rows = keep on table in
    let is_on =
      λ (b : CookieAccount) (e : b.status ≡ enabled). (text_eq_iff b.status enabled).1 e in
    elim (Option-cases (first_not_in passed (order_rows rows))) [
      | inl e ↦ rw e (
          inr (
            (λ b (k, at) on_b read.
                let (j, there) = keep-In on b table k at (is_on b on_b) in
                let over : passed b ≡ true =
                  All-In (λ c. passed c ≡ true) b rows j
                    ((order_rows-All (λ c. passed c ≡ true) rows).1
                      (none_found passed (order_rows rows) e))
                    there in
                ground arith),
            refl,
            refl,
          ))
      | inr (a, e) ↦
          let Fits : CookieAccount → Type 0 = λ c. In c table × (c.status ≡ enabled) in
          let Later : CookieAccount → Type 0 = λ c. passed c ≡ false → before a c ≡ true in
          let fits : All Fits rows = All-from Fits rows (λ c (k, at).
            let (stands, y) = In-keep on c table k at in
            (stands, (text_eq_iff c.status enabled).0 y)) in
          let (good, kept, first) =
            first_found Fits passed (order_rows rows) a ((order_rows-All Fits rows).0 fits)
              (order_rows-Ordered rows) e in
          let (read, free) = free_of (scans a) (skip a.id) kept in
          rw e (
            inl (
              a,
              (good.0, good.1, read, free),
              (λ b ((k, at), on_b, read_b, free_b).
                  let (j, there) = keep-In on b table k at (is_on b on_b) in
                  let in_turn : passed b ≡ false = ground arith in
                  before-Earlier a b
                    (All-In Later b rows j ((order_rows-All Later rows).1 first) there in_turn)),
              refl,
              refl,
            ))
    ]

-- Whatever the rows, the accounts to skip and the rows that cannot be scanned. Where the database answers and
-- an account is picked, it is a row that is enabled, can be scanned and is not skipped, before every
-- other such row by failures, then by the time of its last use, then by id; the row's time of last
-- use is set to the call's, and the account that is returned has 0 for the row's account slot. Where none
-- is picked, every enabled row that can be scanned is skipped, or the database does not answer, and
-- the rows are left as they are.
pub pick_first :
    (answers : Bool) (scans : CookieAccount → Bool) (now : ℕ) (skip : ℕ → Bool)
    (table : List CookieAccount)
    → let (picked, table') = pick_cookie_account_except answers scans now skip table in
      ((a : CookieAccount) × (answers ≡ true)
        × Candidate scans skip table a
        × ((b : CookieAccount) → Candidate scans skip table b → Earlier a b)
        × (picked ≡ some (record a { authuser = 0 }))
        × (table' ≡ update_account a.id (λ r. record r { last_used_at = now }) table))
      ⊎ (((b : CookieAccount)
            → In b table
            → b.status ≡ enabled
            → scans b ≡ true
            → answers ≡ true
            → skip b.id ≡ true)
          × (picked ≡ none)
          × (table' ≡ table))
unfolding pick_cookie_account_except
pick_first false scans now skip table = inr ((λ b at on read no. absurd cc), refl, refl)
pick_first true scans now skip table = elim (pick_found scans now skip table) [
  | inl (a, fits, first, picked, after) ↦ inl (a, refl, fits, first, picked, after)
  | inr (all, picked, after) ↦ inr ((λ b at on read yes. all b at on read), picked, after)
]
