-- ===== src/Media/Varint.antt =====
-- protobufVarint against the encoding: bounds of what it reads, and the round trip.
use gemini_web2api_go_browse.Prelude.{
  ℕ, zero, suc, ◌+◌, ◌*◌, ◌/◌, ◌%◌, ◌^◌, ◌≤◌, ◌<◌, ◌≡◌, refl, sym, ap, ap₂, subst, ◌∙◌, true, false,
  [], ◌∷◌, ◌++◌, some, arith, ltb, if◌then◌else◌, length, get_elem?, Bool-cases, inl, inr, ◌⊎◌,
  Option-cases, In-lt, length-append, append_assoc,
}
use native.Mathlib.Nat.{mod-eq_of_lt}
use native.Mathlib.Numerals.{towards_suc}
use gemini_web2api_go_browse.Media.{
  Bytes, Read, value, past_end, too_long, varint_loop, protobuf_varint,
}

-- Seven bits to a byte, the least first, with the top bit on all but the last; ten bytes at most.
pub encode_rounds : ℕ → ℕ → Bytes
encode_rounds zero x = []
encode_rounds (suc n) x =
    let rest = encode_rounds n (x / 128) in if ltb x 128 then x ∷ [] else (x % 128 + 128) ∷ rest

unfoldable pub encode_varint : ℕ → Bytes
unfolding encode_rounds
encode_varint x = encode_rounds 10 x

get_elem?-append :
    (pre : Bytes) (b : ℕ) (rest : Bytes) → get_elem? (pre ++ b ∷ rest) (length pre) ≡ some b
get_elem?-append [] b rest = refl
get_elem?-append (x ∷ pre) b rest = get_elem?-append pre b rest

pow_seven : (s : ℕ) → 2 ^ (s + 7) ≡ 128 * 2 ^ s
pow_seven s = simp towards_suc (omega arith)

-- A byte below the bits of `v` that are read so far.
varint_round :
    (n i v s b : ℕ) (d : Bytes)
    → get_elem? d i ≡ some b
    → varint_loop (suc n) d i v s ≡ (
        if ltb b 128
        then value (v + ((b % 128) * 2 ^ s) % 2 ^ 64) (i + 1)
        else if ltb 63 (s + 7)
        then too_long
        else varint_loop n d (i + 1) (v + ((b % 128) * 2 ^ s) % 2 ^ 64) (s + 7))
unfolding varint_loop
varint_round n i v s b d e = rw (e, varint_loop)

split_weight : (x p : ℕ) → x * p ≡ (x / 128) * (128 * p) + (x % 128) * p
split_weight x p =
    let e : x ≡ 128 * (x / 128) + x % 128 = omega arith in omega (arith, ap (λ (t : ℕ). t * p) e)

low_fits : (x p : ℕ) → x * p < 2 ^ 64 → ((x % 128) * p) % 2 ^ 64 ≡ (x % 128) * p
low_fits x p h = mod-eq_of_lt (omega (arith, split_weight x p))

-- No number of ten full bytes fits what is left of 64 bits.
last_small : (x s : ℕ) → s ≡ 63 → x * 2 ^ s < 2 ^ 64 → x < 128
last_small x s e h =
    let h' : x * 2 ^ 63 < 2 ^ 64 = subst (λ k. x * 2 ^ k < 2 ^ 64) e h in omega arith

encode_last : (n x : ℕ) → ltb x 128 ≡ true → encode_rounds (suc n) x ≡ x ∷ []
unfolding encode_rounds
encode_last n x e = rw e

encode_more :
    (n x : ℕ)
    → ltb x 128 ≡ false
    → encode_rounds (suc n) x ≡ (x % 128 + 128) ∷ encode_rounds n (x / 128)
unfolding encode_rounds
encode_more n x e = rw e

-- A byte that is not the last: the loop goes on with the rest of the number.
varint_more :
    (n i x v s : ℕ) (d : Bytes)
    → get_elem? d i ≡ some (x % 128 + 128)
    → s + 7 < 64
    → x * 2 ^ s < 2 ^ 64
    → varint_loop (suc n) d i v s ≡ varint_loop n d (i + 1) (v + (x % 128) * 2 ^ s) (s + 7)
varint_more n i x v s d e more fits =
    let same : (x % 128 + 128) % 128 ≡ x % 128 = omega arith in
    let big : ltb (x % 128 + 128) 128 ≡ false = ground arith in
    let small : ltb 63 (s + 7) ≡ false = ground arith in
    varint_round n i v s (x % 128 + 128) d e ∙ rw (big, small, same) (rw (low_fits x (2 ^ s) fits))

weight_next : (x s : ℕ) → (x / 128) * 2 ^ (s + 7) + (x % 128) * 2 ^ s ≡ x * 2 ^ s
weight_next x s = omega (arith, split_weight x (2 ^ s), ap (λ (t : ℕ). (x / 128) * t) (pow_seven s))

varint_loop-encode :
    (n : ℕ) (pre rest : Bytes) (x v s : ℕ)
    → 0 < n
    → s + 7 * n ≡ 70
    → x * 2 ^ s < 2 ^ 64
    → varint_loop n (pre ++ (encode_rounds n x ++ rest)) (length pre) v s
      ≡ value (v + x * 2 ^ s) (length pre + length (encode_rounds n x))
varint_loop-encode zero pre rest x v s pos e fits = absurd (omega arith)
varint_loop-encode (suc n) pre rest x v s pos e fits = elim (Bool-cases (ltb x 128)) [
  | inl last ↦
      let same : x % 128 ≡ x = mod-eq_of_lt (ground arith) in
      rw (encode_last n x last) (
        varint_round n (length pre) v s x (pre ++ (x ∷ rest)) (get_elem?-append pre x rest)
        ∙ rw (last, low_fits x (2 ^ s) fits) (rw same))
  | inr more ↦
      let b = x % 128 + 128 in
      let left : 0 < n = ground (arith, last_small x s) in
      rw (encode_more n x more) (
        varint_more n (length pre) x v s (pre ++ (b ∷ (encode_rounds n (x / 128) ++ rest)))
          (get_elem?-append pre b (encode_rounds n (x / 128) ++ rest)) (omega arith) fits
        ∙ ap₂ (λ d i. varint_loop n d i (v + (x % 128) * 2 ^ s) (s + 7))
            (sym (append_assoc pre (b ∷ []) (encode_rounds n (x / 128) ++ rest)))
            (sym (length-append pre (b ∷ [])))
        ∙ varint_loop-encode n (pre ++ b ∷ []) rest (x / 128) (v + (x % 128) * 2 ^ s) (s + 7) left
            (omega arith) (omega (arith, weight_next x s))
        ∙ ap₂ value (omega (arith, weight_next x s)) (omega (arith, length-append pre (b ∷ []))))
]

-- The encoding of a number below 2 ^ 64, wherever it stands among other bytes, is read as that
-- number, and the offset behind it.
pub varint-encode :
    (pre rest : Bytes) (x : ℕ)
    → x < 2 ^ 64
    → protobuf_varint (pre ++ (encode_varint x ++ rest)) (length pre)
      ≡ value x (length pre + length (encode_varint x))
unfolding protobuf_varint encode_varint
varint-encode pre rest x h =
    varint_loop-encode 10 pre rest x 0 0 (omega arith) refl (omega arith)
    ∙ ap (λ v. value v (length pre + length (encode_rounds 10 x))) (omega arith)

-- What a read says of its offset: from one to ten bytes were read, none beyond the end.
abbrev pub Reads : ℕ → Bytes → ℕ → Read → Type 0
Reads n d i (value v j) = (i < j) × (j ≤ i + n) × (j ≤ length d)
Reads n d i past_end = Unit
Reads n d i too_long = Unit

varint_loop-Reads : (n : ℕ) (d : Bytes) (i v s : ℕ) → Reads n d i (varint_loop n d i v s)
unfolding varint_loop
varint_loop-Reads zero d i v s = tt
varint_loop-Reads (suc n) d i v s = elim (Option-cases (get_elem? d i)) [
  | inl e ↦ rw (e, varint_loop) tt
  | inr (b, e) ↦
      let v' = v + ((b % 128) * 2 ^ s) % 2 ^ 64 in
      let lt = In-lt b d i e in
      rw (e, varint_loop)
        (elim (Bool-cases (ltb b 128)) [
          | inl last ↦ rw last (omega arith, omega arith, omega (arith, lt))
          | inr more ↦ rw more (elim (Bool-cases (ltb 63 (s + 7))) [
            | inl far ↦ rw far tt
            | inr near ↦ rw near (weaken _ (varint_loop-Reads n d (i + 1) v' (s + 7)))
          ])
        ])
]
  where
    weaken : (r : Read) → Reads n d (i + 1) r → Reads (suc n) d i r
    weaken (value u j) (a, b, c) = (omega arith, omega arith, c)
    weaken past_end h = tt
    weaken too_long h = tt

pub protobuf_varint-Reads : (d : Bytes) (i : ℕ) → Reads 10 d i (protobuf_varint d i)
unfolding protobuf_varint
protobuf_varint-Reads d i = varint_loop-Reads 10 d i 0 0

pub Read-cases :
    (r : Read) → ((v : ℕ) × (j : ℕ) × (r ≡ value v j)) ⊎ ((r ≡ past_end) ⊎ (r ≡ too_long))
Read-cases (value v j) = inl (v, j, refl)
Read-cases past_end = inr (inl refl)
Read-cases too_long = inr (inr refl)
