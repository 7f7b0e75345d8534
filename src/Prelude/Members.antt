-- ===== src/Prelude/Members.antt =====
-- Membership in a list, by position, and what a filter keeps.
use Prim.Native.Nat.{ℕ, zero, suc, ◌<◌}
use mathlib.Core.Path.{◌≡◌, refl, subst}
use mathlib.Core.Logic.{inl, inr}
use mathlib.Core.Bool.{Bool, true}
use mathlib.Core.List.{List, [], ◌∷◌}
use mathlib.Core.Option.{none, some}
use native.Mathlib.Omega.{arith}
use gemini_web2api_go_browse.Prelude.Tests.{Bool-cases}
use gemini_web2api_go_browse.Prelude.Lists.{get_elem?, keep, length, All}

pub some_injective {ℓ} : {A : Type ℓ} {a b : A} → some a ≡ some b → a ≡ b
some_injective e = cc

pub some_ne_none {ℓ} : {A : Type ℓ} {a : A} → some a ≡ none → ⊥
some_ne_none e = cc

module _ {ℓ} {A : Type ℓ} where
  -- `a` stands in the list, at a position that is kept.
  abbrev pub In : A → List A → Type ℓ
  In a xs = (k : ℕ) × (get_elem? xs k ≡ some a)

  pub In-cons : (a x : A) (xs : List A) → In a xs → In a (x ∷ xs)
  In-cons a x xs (k, e) = (suc k, e)

  pub get_elem?-some : (xs : List A) (k : ℕ) → k < length xs → (a : A) × (get_elem? xs k ≡ some a)
  get_elem?-some [] k h = elim h [ ]
  get_elem?-some (x ∷ xs) zero h = (x, refl)
  get_elem?-some (x ∷ xs) (suc k) h = get_elem?-some xs k (omega arith)

  pub In-lt : (a : A) (xs : List A) (k : ℕ) → get_elem? xs k ≡ some a → k < length xs
  In-lt a [] k e = absurd (cc)
  In-lt a (x ∷ xs) zero e = omega arith
  In-lt a (x ∷ xs) (suc k) e = omega (arith, In-lt a xs k e)

  pub All-In {κ} :
      (P : A → Type κ) (a : A) (xs : List A) (k : ℕ) → All P xs → get_elem? xs k ≡ some a → P a
  All-In P a [] k h e = absurd (cc)
  All-In P a (x ∷ xs) zero (px, h) e = subst P (some_injective e) px
  All-In P a (x ∷ xs) (suc k) (px, h) e = All-In P a xs k h e

  module _ (f : A → Bool) where
    pub keep-In :
        (a : A) (xs : List A) (k : ℕ) → get_elem? xs k ≡ some a → f a ≡ true → In a (keep f xs)
    keep-In a [] k e good = absurd (cc)
    keep-In a (x ∷ xs) zero e good =
        let y : f x ≡ true = subst (λ b. f b ≡ true) (some_injective {a = a} {b = x} (cc)) good in
        rw y (0, e)
    keep-In a (x ∷ xs) (suc k) e good = elim (Bool-cases (f x)) [
      | inl y ↦ rw y (In-cons a x (keep f xs) (keep-In a xs k e good))
      | inr n ↦ rw n (keep-In a xs k e good)
    ]

    kept_head :
        (a x : A) (xs : List A) (k : ℕ)
        → f x ≡ true
        → ((j : ℕ) → get_elem? (keep f xs) j ≡ some a → In a xs × (f a ≡ true))
        → get_elem? (x ∷ keep f xs) k ≡ some a
        → In a (x ∷ xs) × (f a ≡ true)
    kept_head a x xs zero y ih e = ((0, e), subst (λ b. f b ≡ true) (some_injective e) y)
    kept_head a x xs (suc k) y ih e = let (at, good) = ih k e in (In-cons a x xs at, good)

    pub In-keep :
        (a : A) (xs : List A) (k : ℕ) → get_elem? (keep f xs) k ≡ some a → In a xs × (f a ≡ true)
    In-keep a [] k e = absurd (cc)
    In-keep a (x ∷ xs) k e = elim (Bool-cases (f x)) [
      | inl y ↦ kept_head a x xs k y (In-keep a xs) (rw y at e)
      | inr n ↦ let (at, good) = In-keep a xs k (rw n at e) in (In-cons a x xs at, good)
    ]
