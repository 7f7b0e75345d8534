-- ===== src/Scheduler/Upsert.antt =====
-- upsertHourly of a bucket whose rows are new: they are added behind the table.
use gemini_web2api_go_browse.Prelude.{
  ℕ, ◌<◌, ◌≡◌, refl, sym, ap, ◌∙◌, false, List, [], ◌∷◌, ◌++◌, arith, All, append-nil, append_assoc,
}
use gemini_web2api_go_browse.Scheduler.{Stat, key_eq, stat_key, same_row, upsert_stat, upsert_all}
use gemini_web2api_go_browse.Scheduler.Groups.{DistinctKeys, stat_keys}

upsert-new :
    (s : Stat) (table : List Stat)
    → All (λ r. same_row r s ≡ false) table
    → upsert_stat s table ≡ table ++ s ∷ []
unfolding upsert_stat
upsert-new s [] h = refl
upsert-new s (r ∷ table) (n, h) = rw n (ap (◌∷◌ r) (upsert-new s table h))

-- Rows of a later bucket, with keys of their own, are added behind the table.
abbrev pub InBucket : ℕ → List Stat → Type 0
InBucket b = All λ s. s.bucket ≡ b

abbrev Clear : Stat → List Stat → Type 0
Clear s = All λ r. same_row r s ≡ false

Clear-older :
    (s : Stat) (b : ℕ) (table : List Stat)
    → s.bucket ≡ b
    → All (λ r. r.bucket < b) table
    → Clear s table
Clear-older s b [] e h = tt
Clear-older s b (r ∷ table) e (lt, h) = (ground arith, Clear-older s b table e h)

Clear-append :
    (s : Stat) (xs : List Stat) (r : Stat)
    → Clear s xs
    → same_row r s ≡ false
    → Clear s (xs ++ r ∷ [])
Clear-append s [] r h n = (n, tt)
Clear-append s (x ∷ xs) r (m, h) n = (m, Clear-append s xs r h n)

Clear-later :
    (s : Stat) (ss table : List Stat)
    → All (λ t. Clear t table) ss
    → All (λ j. key_eq (stat_key s) j ≡ false) (stat_keys ss)
    → All (λ t. Clear t (table ++ s ∷ [])) ss
Clear-later s [] table h k = tt
Clear-later s (t ∷ ss) table (c, h) (n, k) =
    (Clear-append t table s c (ground (arith, n)), Clear-later s ss table h k)

pub upsert_all-new :
    (ss table : List Stat)
    → DistinctKeys (stat_keys ss)
    → All (λ t. Clear t table) ss
    → upsert_all ss table ≡ table ++ ss
unfolding upsert_all
upsert_all-new [] table d h = sym (append-nil table)
upsert_all-new (s ∷ ss) table (f, d) (c, h) = rw (upsert-new s table c) (
    upsert_all-new ss (table ++ s ∷ []) d (Clear-later s ss table h f)
    ∙ append_assoc table (s ∷ []) ss)

pub rows-Clear :
    (b : ℕ) (ss table : List Stat)
    → InBucket b ss
    → All (λ r. r.bucket < b) table
    → All (λ t. Clear t table) ss
rows-Clear b [] table h old = tt
rows-Clear b (s ∷ ss) table (e, h) old = (Clear-older s b table e old, rows-Clear b ss table h old)
