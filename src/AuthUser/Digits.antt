-- ===== src/AuthUser/Digits.antt =====
-- A number written in digits and read back.
use gemini_web2api_go_browse.Prelude.{
  ℕ, zero, suc, ◌+◌, ◌-◌, ◌*◌, ◌/◌, ◌%◌, ◌<◌, ◌≡◌, refl, sym, ap, ◌∙◌, inl, inr, [], ◌∷◌, ◌++◌,
  arith, ltb, Text, Bool-cases,
}
use gemini_web2api_go_browse.AuthUser.{digits, itoa, number}

number-append : (k : ℕ) (s t : Text) → number k (s ++ t) ≡ number (number k s) t
unfolding number
number-append k [] t = refl
number-append k (b ∷ s) t = number-append (k * 10 + (b - 0x30)) s t

number-digits : (f n : ℕ) → n < f → number 0 (digits f n) ≡ n
unfolding digits number
number-digits zero n h = absurd (omega arith)
number-digits (suc f) n h = elim (Bool-cases (ltb n 10)) [
  | inl y ↦ rw y (omega arith)
  | inr big ↦
      let ih = number-digits f (n / 10) (ground arith) in
      rw big (number-append 0 (digits f (n / 10)) ((0x30 + n % 10) ∷ []) ∙ omega (arith, ih))
]

-- Two numbers that are written alike are the same.
pub itoa_injective : (m n : ℕ) → itoa m ≡ itoa n → m ≡ n
unfolding itoa
itoa_injective m n e =
    sym (number-digits (m + 1) m (omega arith))
    ∙ ap (number 0) e
    ∙ number-digits (n + 1) n (omega arith)
