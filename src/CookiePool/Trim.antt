-- ===== src/CookiePool/Trim.antt =====
-- What trimming leaves of a text: a part of it that trimming leaves alone.
use gemini_web2api_go_browse.Prelude.{
  ℕ, ◌≡◌, refl, sym, ap, subst, ◌∙◌, inl, inr, Bool, true, false, ◌||◌, [], ◌∷◌, ◌++◌, arith,
  reverse, ◌==◌, if◌then◌else◌, Text, Bool-cases,
}
use mathlib.Core.List.{reverse-append, reverse-reverse}
use gemini_web2api_go_browse.CookiePool.{is_space, trim_left, trim_space}

abbrev pub has_byte : ℕ → Text → Bool
has_byte c [] = false
has_byte c (b ∷ s) = (b == c) || has_byte c s

pub has_byte-append : (c : ℕ) (s t : Text) → has_byte c (s ++ t) ≡ (has_byte c s || has_byte c t)
has_byte-append c [] t = refl
has_byte-append c (b ∷ s) t = ground (arith, has_byte-append c s t)

-- No white space stands first.
abbrev bare : Text → Bool
bare [] = true
bare (b ∷ s) = if is_space b then false else true

trim_left-bare : (s : Text) → bare (trim_left s) ≡ true
unfolding trim_left
trim_left-bare [] = refl
trim_left-bare (b ∷ s) = elim (Bool-cases (is_space b)) [
  | inl y ↦ rw y (trim_left-bare s)
  | inr n ↦ rw n (rw n refl)
]

bare_alone : (s : Text) → bare s ≡ true → trim_left s ≡ s
unfolding trim_left
bare_alone [] h = refl
bare_alone (b ∷ s) h = elim (Bool-cases (is_space b)) [ inl y ↦ absurd (cc) | inr n ↦ rw n refl ]

bare-append : (s t : Text) → bare (s ++ t) ≡ true → bare s ≡ true
bare-append [] t h = refl
bare-append (b ∷ s) t h = h

cut_left : (s : Text) → (w : Text) × (s ≡ w ++ trim_left s)
unfolding trim_left
cut_left [] = ([], refl)
cut_left (b ∷ s) = elim (Bool-cases (is_space b)) [
  | inl y ↦ let (w, e) = cut_left s in (b ∷ w, rw y (ap (◌∷◌ b) e))
  | inr n ↦ ([], rw n refl)
]

-- The trimming at the end, and the text that it cuts off.
abbrev trim_right : Text → Text
trim_right s = reverse (trim_left (reverse s))

cut_right : (s : Text) → (w : Text) × (s ≡ trim_right s ++ w)
cut_right s =
    let (w, e) = cut_left (reverse s) in
    (reverse w, sym (reverse-reverse s) ∙ ap reverse e ∙ reverse-append w (trim_left (reverse s)))

trim_right-bare : (s : Text) → bare s ≡ true → bare (trim_right s) ≡ true
trim_right-bare s h =
    let (w, e) = cut_right s in bare-append (trim_right s) w (subst (λ t. bare t ≡ true) e h)

trim_right_again : (s : Text) → trim_right (trim_right s) ≡ trim_right s
trim_right_again s =
    ap (λ t. reverse (trim_left t)) (reverse-reverse (trim_left (reverse s)))
    ∙ ap reverse (bare_alone (trim_left (reverse s)) (trim_left-bare (reverse s)))

pub trim_space_again : (s : Text) → trim_space (trim_space s) ≡ trim_space s
unfolding trim_space
trim_space_again s =
    let x = trim_left s in
    ap trim_right (bare_alone (trim_right x) (trim_right-bare x (trim_left-bare s)))
    ∙ trim_right_again x

-- A byte of the trimmed text is one of the text.
pub has_byte-trim_space :
    (c : ℕ) (s : Text) → has_byte c s ≡ false → has_byte c (trim_space s) ≡ false
unfolding trim_space
has_byte-trim_space c s h =
    let (w, e) = cut_left s in
    let (w', e') = cut_right (trim_left s) in
    let left : has_byte c (w ++ trim_left s) ≡ false = subst (λ t. has_byte c t ≡ false) e h in
    let inner : has_byte c (trim_left s) ≡ false =
      ground (arith, has_byte-append c w (trim_left s)) in
    let both : has_byte c (trim_right (trim_left s) ++ w') ≡ false =
      subst (λ t. has_byte c t ≡ false) e' inner in
    ground (arith, has_byte-append c (trim_right (trim_left s)) w')

pub trim_space_after_space : (s : Text) → trim_space (b' ' ∷ s) ≡ trim_space s
unfolding trim_space trim_left is_space
trim_space_after_space s = refl
