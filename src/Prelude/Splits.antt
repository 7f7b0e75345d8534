-- ===== src/Prelude/Splits.antt =====
-- take, drop and index where a list is the append of two.
use Prim.Native.Nat.{ℕ, zero, suc, ◌+◌, ◌≤◌}
use mathlib.Core.Path.{◌≡◌, refl, ap, sym}
use mathlib.Core.Logic.{inl, inr}
use mathlib.Core.Bool.{true}
use mathlib.Core.List.{List, [], ◌∷◌, ◌++◌}
use mathlib.Core.Option.{some}
use native.Mathlib.Omega.{arith}
use gemini_web2api_go_browse.Prelude.Tests.{Bool-cases, Option-cases}
use gemini_web2api_go_browse.Prelude.Lists.{length, take, drop}
use gemini_web2api_go_browse.Prelude.Members.{some_ne_none}
use gemini_web2api_go_browse.Prelude.Strings.{Text, index, has_prefix, length-prefix-le}

module _ {ℓ} {A : Type ℓ} where
  pub take-append : (n : ℕ) (xs ys : List A) → n ≤ length xs → take n (xs ++ ys) ≡ take n xs
  take-append zero xs ys h = refl
  take-append (suc n) [] ys h = absurd (omega arith)
  take-append (suc n) (x ∷ xs) ys h = ap (◌∷◌ x) (take-append n xs ys (omega arith))

  pub drop-append : (n : ℕ) (xs ys : List A) → n ≤ length xs → drop n (xs ++ ys) ≡ drop n xs ++ ys
  drop-append zero xs ys h = refl
  drop-append (suc n) [] ys h = absurd (omega arith)
  drop-append (suc n) (x ∷ xs) ys h = drop-append n xs ys (omega arith)

  pub take-length-append : (xs ys : List A) → take (length xs) (xs ++ ys) ≡ xs
  take-length-append [] ys = refl
  take-length-append (x ∷ xs) ys = ap (◌∷◌ x) (take-length-append xs ys)

  pub drop-length-append : (xs ys : List A) → drop (length xs) (xs ++ ys) ≡ ys
  drop-length-append [] ys = refl
  drop-length-append (x ∷ xs) ys = drop-length-append xs ys

pub has_prefix-append_right : (p s t : Text) → has_prefix p s ≡ true → has_prefix p (s ++ t) ≡ true
unfolding has_prefix
has_prefix-append_right [] s t h = refl
has_prefix-append_right (c ∷ p) [] t h = cc
has_prefix-append_right (c ∷ p) (d ∷ s) t h = ground (arith, has_prefix-append_right p s t)

-- A test of a prefix that has room is decided already.
pub has_prefix-append_long :
    (p s t : Text) → length p ≤ length s → has_prefix p (s ++ t) ≡ has_prefix p s
unfolding has_prefix
has_prefix-append_long [] s t h = refl
has_prefix-append_long (c ∷ p) [] t h = absurd (omega arith)
has_prefix-append_long (c ∷ p) (d ∷ s) t h = ground (arith, has_prefix-append_long p s t)

pub length-index : (m s : Text) (i : ℕ) → index m s ≡ some i → i + length m ≤ length s
unfolding index
length-index [] [] i h = ground arith
length-index (x ∷ m) [] i h = absurd (cc)
length-index m (c ∷ s) i h = elim (Bool-cases (has_prefix m (c ∷ s))) [
  | inl y ↦ ground (arith, length-prefix-le m (c ∷ s) y)
  | inr n ↦ elim (Option-cases (index m s)) [
    | inl e ↦ absurd (some_ne_none (sym (rw (n, e) at h)))
    | inr (j, e) ↦ ground (arith, length-index m s j e)
  ]
]

pub index-append : (m s t : Text) (i : ℕ) → index m s ≡ some i → index m (s ++ t) ≡ some i
unfolding index
index-append [] [] [] i h = h
index-append [] [] (d ∷ t) i h = ground arith
index-append (x ∷ m) [] t i h = absurd (cc)
index-append m (c ∷ s) t i h = elim (Bool-cases (has_prefix m (c ∷ s))) [
  | inl y ↦ ground (arith, has_prefix-append_right m (c ∷ s) t y)
  | inr n ↦ elim (Option-cases (index m s)) [
    | inl e ↦ absurd (some_ne_none (sym (rw (n, e) at h)))
    | inr (j, e) ↦
        ground
          (arith, has_prefix-append_long m (c ∷ s) t, length-index m s j e, index-append m s t j e)
  ]
]
