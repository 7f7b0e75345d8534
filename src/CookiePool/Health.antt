-- ===== src/CookiePool/Health.antt =====
-- markCookieByStatus over a history of answers: what is counted against an account, and when the
-- account is disabled.
use gemini_web2api_go_browse.Prelude.{
  ℕ, ◌+◌, ◌<◌, ◌≡◌, ◌≢◌, refl, sym, ap, subst, ◌∙◌, Bool, true, false, ◌&&◌, ◌||◌, not, List, [],
  ◌∷◌, some, arith, ltb, leb, ◌==◌, if◌then◌else◌, Bool-cases, inl, inr, Text, text_eq, text_eq_iff,
  is_empty, some_ne_none,
}
use gemini_web2api_go_browse.CookiePool.{
  CookieAccount, enabled, disabled, account_by_id, update_account, auto_disable_if_dead,
  disable_row, dead, failed_row, mark_account_result, mark_cookie_by_status, truncate,
}

-- An answer for an account: the time, the status (0 where no answer came) and the error's text.
pub record Answer : Type 0 where
  pub time : ℕ
  pub status : ℕ
  pub error : Text

pub mark_all : ℕ → List Answer → List CookieAccount → List CookieAccount
mark_all i [] table = table
mark_all i (w ∷ ws) table = mark_all i ws (mark_cookie_by_status w.time i w.status w.error table)

-- The reference: the authentication failures in a row after one more answer. Only 200 ends a row,
-- and only 401 and 403 lengthen it.
abbrev pub streak : ℕ → ℕ → ℕ
streak n status = if status == 200 then 0 else if status == 401 || status == 403 then n + 1 else n

-- The streak after the answers, from `n`, and whether it reached three on the way.
abbrev pub streak_after : ℕ → List Answer → ℕ
streak_after n [] = n
streak_after n (w ∷ ws) = streak_after (streak n w.status) ws

pub struck_out : ℕ → List Answer → Bool
struck_out n [] = false
struck_out n (w ∷ ws) = leb 3 (streak n w.status) || struck_out (streak n w.status) ws

module _ (i : ℕ) (f : CookieAccount → CookieAccount)
    (same : (a : CookieAccount) → (f a).id ≡ a.id) where
  updated :
      (a : CookieAccount) (rows : List CookieAccount)
      → account_by_id i rows ≡ some a
      → account_by_id i (update_account i f rows) ≡ some (f a)
  unfolding account_by_id update_account
  updated a [] e = absurd (some_ne_none (sym e))
  updated a (b ∷ rows) e = ground (arith, updated a rows, same b)

  pub not_updated :
      (j : ℕ) (rows : List CookieAccount)
      → j ≢ i
      → account_by_id j (update_account i f rows) ≡ account_by_id j rows
  unfolding account_by_id update_account
  not_updated j [] n = refl
  not_updated j (b ∷ rows) n = ground (arith, not_updated j rows n, same b)

-- The status of an account that was struck out or not.
abbrev status_of : Bool → Text
status_of out = if out then disabled else enabled

-- The row of the account after answers: its failures in a row, and whether it was struck out.
record Row (i : ℕ) (cookie : Text) (n : ℕ) (out : Bool) (table : List CookieAccount) : Type 0 where
  row : CookieAccount
  at : account_by_id i table ≡ some row
  fails : row.fail_count ≡ n
  shows : row.status ≡ status_of out
  alive : out ≡ false → n < 3
  own : row.cookie ≡ cookie

dead_lem :
    (n : ℕ) (out : Bool) (b : CookieAccount)
    → b.fail_count ≡ n
    → b.status ≡ status_of out
    → dead (some b) ≡ (not out && leb 3 n)
unfolding dead text_eq
dead_lem n true b fails shows = rw shows refl
dead_lem n false b fails shows = rw (shows, fails) refl

disable_row-id : (a : CookieAccount) → (disable_row a).id ≡ a.id
unfolding disable_row
disable_row-id a = elim (Bool-cases (text_eq a.status enabled)) [
  | inl y ↦ rw y refl
  | inr n ↦ rw n refl
]

disable_row_on :
    (a : CookieAccount) → a.status ≡ enabled → disable_row a ≡ record a { status = disabled }
unfolding disable_row
disable_row_on a e =
    let y : text_eq a.status enabled ≡ true = (text_eq_iff a.status enabled).1 e in rw y refl

-- An answer that counts nothing leaves an account that is on with less than three.
same_out : (n : ℕ) (out : Bool) → (out ≡ false → n < 3) → (leb 3 n || out) ≡ out
same_out n true h = ground arith
same_out n false h = ground (arith, h refl)

disable_step :
    (i n : ℕ) (cookie : Text) (out : Bool) (b : CookieAccount) (table : List CookieAccount)
    → account_by_id i table ≡ some b
    → b.fail_count ≡ n
    → b.status ≡ status_of out
    → b.cookie ≡ cookie
    → Row i cookie n (leb 3 n || out) (auto_disable_if_dead i table)
unfolding auto_disable_if_dead disable_row text_eq
disable_step i n cookie out b table at fails shows own =
    let test : dead (account_by_id i table) ≡ (not out && leb 3 n) =
      rw at (dead_lem n out b fails shows) in
    elim (Bool-cases (not out && leb 3 n)) [
      | inl y ↦
          let on : out ≡ false = ground arith in
          let three : leb 3 n ≡ true = ground arith in
          rw (test, y, three)
            (record {
              row = record b { status = disabled };
              at =
                  updated i disable_row disable_row-id b table at
                  ∙ ap some (disable_row_on b (shows ∙ ap status_of on));
              fails = fails;
              shows = refl;
              alive = λ e. absurd (cc);
              own = own;
            })
      | inr z ↦
          rw (test, z)
            (record {
              row = b;
              at = at;
              fails = fails;
              shows = shows ∙ ap status_of (ground arith);
              alive = λ e. ground arith;
              own = own;
            })
    ]

mark_step :
    (now i status n : ℕ) (error cookie : Text) (out : Bool) (table : List CookieAccount)
    → 0 < i
    → Row i cookie n out table
    → Row i cookie
        (streak n status)
        (leb 3 (streak n status) || out)
        (mark_cookie_by_status now i status error table)
unfolding mark_cookie_by_status mark_account_result failed_row
mark_step now i status n error cookie out table pos r =
    let some_id : (i == 0) ≡ false = ground arith in
    elim (Bool-cases (status == 200)) [
      | inl fine ↦
          rw (fine, some_id)
            (record {
              row = record r.row { last_ok_at = now; fail_count = 0; last_error = [] };
              at =
                  updated i (λ a. record a { last_ok_at = now; fail_count = 0; last_error = [] })
                    (λ a. refl) r.row table r.at;
              fails = refl;
              shows = r.shows;
              alive = λ e. omega arith;
              own = r.own;
            })
      | inr bad ↦ elim (Bool-cases (status == 401 || status == 403)) [
        | inl auth ↦
            rw (bad, auth, some_id)
              (disable_step i (n + 1) cookie out (failed_row (truncate error 200) r.row)
                (update_account i (failed_row (truncate error 200)) table)
                (updated i (failed_row (truncate error 200)) (λ a. refl) r.row table r.at)
                (ap (λ k. k + 1) r.fails) r.shows r.own)
        | inr other ↦ elim (Bool-cases (ltb 0 i && not (is_empty error))) [
          | inl y ↦
              rw (bad, other, y)
                (rw (same_out n out r.alive) (record {
                  row = record r.row { last_error = truncate error 200 };
                  at =
                      updated i (λ a. record a { last_error = truncate error 200 }) (λ a. refl)
                        r.row table r.at;
                  fails = r.fails;
                  shows = r.shows;
                  alive = r.alive;
                  own = r.own;
                }))
          | inr z ↦ rw (bad, other, z) (rw (same_out n out r.alive) r)
        ]
      ]
    ]

mark_all_rows :
    (i n : ℕ) (ws : List Answer) (cookie : Text) (out : Bool) (table : List CookieAccount)
    → 0 < i
    → Row i cookie n out table
    → Row i cookie (streak_after n ws) (struck_out n ws || out) (mark_all i ws table)
unfolding mark_all struck_out
mark_all_rows i n [] cookie out table pos r = r
mark_all_rows i n (w ∷ ws) cookie out table pos r =
    let s = streak n w.status in
    let order : (struck_out s ws || (leb 3 s || out)) ≡ ((leb 3 s || struck_out s ws) || out) =
      ground arith in
    subst
      (λ o.
        Row i cookie (streak_after s ws) o
          (mark_all i ws (mark_cookie_by_status w.time i w.status w.error table)))
      order
      (mark_all_rows i s ws cookie (leb 3 s || out)
        (mark_cookie_by_status w.time i w.status w.error table) pos
        (mark_step w.time i w.status n w.error cookie out table pos r))

auto_disable_other :
    (i j : ℕ) (table : List CookieAccount)
    → j ≢ i
    → account_by_id j (auto_disable_if_dead i table) ≡ account_by_id j table
unfolding auto_disable_if_dead
auto_disable_other i j table n = elim (Bool-cases (dead (account_by_id i table))) [
  | inl y ↦ rw y (not_updated i disable_row disable_row-id j table n)
  | inr z ↦ rw z refl
]

mark_other :
    (now i status j : ℕ) (error : Text) (table : List CookieAccount)
    → j ≢ i
    → account_by_id j (mark_cookie_by_status now i status error table) ≡ account_by_id j table
unfolding mark_cookie_by_status mark_account_result failed_row
mark_other now i status j error table n =
    let failed = update_account i (failed_row (truncate error 200)) table in
    ground (
      arith,
      not_updated i (λ a. record a { last_ok_at = now; fail_count = 0; last_error = [] })
          (λ a. refl) j table n,
      not_updated i (λ a. record a { last_error = truncate error 200 }) (λ a. refl) j table n,
      not_updated i (failed_row (truncate error 200)) (λ a. refl) j table n,
      auto_disable_other i j failed n,
    )

mark_all_other :
    (i j : ℕ) (ws : List Answer) (table : List CookieAccount)
    → j ≢ i
    → account_by_id j (mark_all i ws table) ≡ account_by_id j table
unfolding mark_all
mark_all_other i j [] table n = refl
mark_all_other i j (w ∷ ws) table n =
    mark_all_other i j ws (mark_cookie_by_status w.time i w.status w.error table) n
    ∙ mark_other w.time i w.status j w.error table n

-- For an account that is enabled with less than three failures, over any answers for it: its count is
-- the authentication failures since the last 200; it is disabled exactly when three of them came with
-- no 200 between, and nothing enables it again; its cookie stays; and every other account is as
-- it was.
pub mark_all_lem :
    (i : ℕ) (ws : List Answer) (a : CookieAccount) (table : List CookieAccount)
    → 0 < i
    → account_by_id i table ≡ some a
    → a.status ≡ enabled
    → a.fail_count < 3
    → ((b : CookieAccount) × (account_by_id i (mark_all i ws table) ≡ some b)
        × (b.fail_count ≡ streak_after a.fail_count ws)
        × (b.status ≡ (if struck_out a.fail_count ws then disabled else enabled))
        × (b.cookie ≡ a.cookie))
      × ((j : ℕ) → j ≢ i → account_by_id j (mark_all i ws table) ≡ account_by_id j table)
mark_all_lem i ws a table pos at on few =
    let r =
      mark_all_rows i a.fail_count ws a.cookie false table pos
        (record { row = a; at = at; fails = refl; shows = on; alive = λ e. few; own = refl }) in
    (
      (r.row, r.at, r.fails, r.shows ∙ ap status_of (ground arith), r.own),
      (λ j n. mark_all_other i j ws table n),
    )
