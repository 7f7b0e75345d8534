-- ===== src/CookiePool/Merge/RoundTrip.antt =====
-- Cookie pairs written to a text and read back.
use gemini_web2api_go_browse.Prelude.{
  ℕ, zero, suc, ◌+◌, ◌<◌, ◌≡◌, refl, sym, ap, ap₂, subst, ◌∙◌, inl, inr, true, false, List, [], ◌∷◌,
  ◌++◌, some, arith, ltb, ◌==◌, map, length, take, drop, index_byte, Text, All, Bool-cases,
  Option-cases, some_ne_none, some_injective, take-length-append, drop-length-append, ltb→lt,
  lt→ltb,
}
use gemini_web2api_go_browse.CookiePool.{
  trim_space, split_byte, put_first, add_pair, cookie_pairs, split_cookie_pairs,
}
use gemini_web2api_go_browse.CookiePool.Trim.{
  has_byte, trim_space_again, has_byte-trim_space, trim_space_after_space,
}
use gemini_web2api_go_browse.CookiePool.Merge.{pair_text, join_parts}

-- A pair whose text is trimmed, has no semicolon, and has its first `=` behind a name.
pub record Formed (kv : Text × Text) : Type 0 where
  pub trimmed : trim_space (pair_text kv) ≡ pair_text kv
  pub one_part : has_byte b';' (pair_text kv) ≡ false
  pub equals_at : index_byte b'=' (pair_text kv) ≡ some (length kv.0)
  pub named : ltb 0 (length kv.0) ≡ true

one_more : (n : ℕ) → suc n + 1 ≡ suc (n + 1)
one_more n = omega arith

-- The text at the first of a byte.
pub index_byte_cut :
    (c : ℕ) (p : Text) (i : ℕ)
    → index_byte c p ≡ some i
    → (take i p ++ (c ∷ drop (i + 1) p) ≡ p) × (length (take i p) ≡ i)
unfolding index_byte
index_byte_cut c [] i e = absurd (some_ne_none (sym e))
index_byte_cut c (d ∷ p) i e = elim (Bool-cases (d == c)) [
  | inl y ↦
      let zero_is : 0 ≡ i = some_injective (rw y at e) in
      subst
        (λ j.
          (take j (d ∷ p) ++ (c ∷ drop (j + 1) (d ∷ p)) ≡ d ∷ p) × (length (take j (d ∷ p)) ≡ j))
        zero_is (ap (λ x. x ∷ p) (ground arith), refl)
  | inr n ↦ elim (Option-cases (index_byte c p)) [
    | inl none_of ↦ absurd (some_ne_none (sym (rw (n, none_of) at e)))
    | inr (j, at) ↦
        let suc_is : suc j ≡ i = some_injective (rw (n, at) at e) in
        let (whole, long) = index_byte_cut c p j at in
        subst
          (λ j.
            (take j (d ∷ p) ++ (c ∷ drop (j + 1) (d ∷ p)) ≡ d ∷ p) × (length (take j (d ∷ p)) ≡ j))
          suc_is
          (
            ap (λ m. d ∷ (take j p ++ (c ∷ drop m (d ∷ p)))) (one_more j) ∙ ap (◌∷◌ d) whole,
            omega (arith, long),
          )
  ]
]

-- A pair that is cut at its first `=` out of a trimmed part.
pub cut_pair-Formed :
    (s : Text) (i : ℕ)
    → has_byte b';' s ≡ false
    → index_byte b'=' (trim_space s) ≡ some i
    → 0 < i
    → Formed (take i (trim_space s), drop (i + 1) (trim_space s))
cut_pair-Formed s i clean at pos =
    let p = trim_space s in
    let (whole, long) = index_byte_cut b'=' p i at in
    record {
      trimmed = rw whole (trim_space_again s);
      one_part = rw whole (has_byte-trim_space b';' s clean);
      equals_at = rw (whole, long) at;
      named = rw long (lt→ltb 0 i pos);
    }

put_first_clean :
    (c b : ℕ) (ps : List Text)
    → (b == c) ≡ false
    → All (λ p. has_byte c p ≡ false) ps
    → All (λ p. has_byte c p ≡ false) (put_first b ps)
unfolding put_first
put_first_clean c b [] n h = (ground arith, tt)
put_first_clean c b (p ∷ ps) n (clean, h) = (ground arith, h)

split_byte_clean : (c : ℕ) (s : Text) → All (λ p. has_byte c p ≡ false) (split_byte c s)
unfolding split_byte
split_byte_clean c [] = (refl, tt)
split_byte_clean c (b ∷ s) = elim (Bool-cases (b == c)) [
  | inl y ↦ rw y (refl, split_byte_clean c s)
  | inr n ↦ rw n (put_first_clean c b (split_byte c s) n (split_byte_clean c s))
]

cookie_pairs-Formed :
    (ps : List Text) → All (λ p. has_byte b';' p ≡ false) ps → All Formed (cookie_pairs ps)
unfolding cookie_pairs add_pair
cookie_pairs-Formed [] h = tt
cookie_pairs-Formed (s ∷ ps) (clean, h) = elim (Option-cases (index_byte b'=' (trim_space s))) [
  | inl e ↦ rw e (cookie_pairs-Formed ps h)
  | inr (i, e) ↦ elim (Bool-cases (ltb 0 i)) [
    | inl y ↦ rw e (rw y (cut_pair-Formed s i clean e (ltb→lt 0 i y), cookie_pairs-Formed ps h))
    | inr n ↦ rw e (rw n (cookie_pairs-Formed ps h))
  ]
]

-- Every pair that is read from a cookie is formed.
pub split_cookie_pairs-Formed : (cookie : Text) → All Formed (split_cookie_pairs cookie)
unfolding split_cookie_pairs
split_cookie_pairs-Formed cookie =
    cookie_pairs-Formed (split_byte b';' cookie) (split_byte_clean b';' cookie)

split_byte_one : (c : ℕ) (p : Text) → has_byte c p ≡ false → split_byte c p ≡ p ∷ []
unfolding split_byte put_first
split_byte_one c [] h = refl
split_byte_one c (b ∷ p) h =
    let other : (b == c) ≡ false = ground arith in
    rw other (ap (put_first b) (split_byte_one c p (ground arith)))

split_byte-append :
    (c : ℕ) (p s : Text) → has_byte c p ≡ false → split_byte c (p ++ (c ∷ s)) ≡ p ∷ split_byte c s
unfolding split_byte put_first
split_byte-append c [] s h = let y : (c == c) ≡ true = ground arith in rw y refl
split_byte-append c (b ∷ p) s h =
    let other : (b == c) ≡ false = ground arith in
    rw other (ap (put_first b) (split_byte-append c p s (ground arith)))

drop-drop : (n : ℕ) (s : Text) → drop 1 (drop n s) ≡ drop (n + 1) s
drop-drop zero s = refl
drop-drop (suc n) [] = ap (λ m. drop m []) (sym (one_more n))
drop-drop (suc n) (b ∷ s) = drop-drop n s ∙ ap (λ m. drop m (b ∷ s)) (sym (one_more n))

-- A part of a formed pair gives that pair.
cookie_pairs-cons :
    (kv : Text × Text) (ps : List Text)
    → Formed kv
    → cookie_pairs (pair_text kv ∷ ps) ≡ kv ∷ cookie_pairs ps
unfolding cookie_pairs add_pair
cookie_pairs-cons (k, v) ps f =
    let p = pair_text (k, v) in
    let key : take (length k) p ≡ k = take-length-append k (b'=' ∷ v) in
    let val : drop (length k + 1) p ≡ v =
      sym (drop-drop (length k) p) ∙ ap (drop 1) (drop-length-append k (b'=' ∷ v)) in
    let got : add_pair p (some (length k)) (cookie_pairs ps) ≡ (k, v) ∷ cookie_pairs ps =
      rw f.named (ap₂ (λ (a b : Text). (a, b) ∷ cookie_pairs ps) key val) in
    ap (λ t. add_pair t (index_byte b'=' t) (cookie_pairs ps)) f.trimmed
    ∙ ap (λ o. add_pair p o (cookie_pairs ps)) f.equals_at
    ∙ got

cookie_pairs_after_space : (ps : List Text) → cookie_pairs (put_first b' ' ps) ≡ cookie_pairs ps
unfolding cookie_pairs put_first trim_space add_pair index_byte
cookie_pairs_after_space [] = refl
cookie_pairs_after_space (p ∷ ps) =
    ap (λ t. add_pair t (index_byte b'=' t) (cookie_pairs ps)) (trim_space_after_space p)

nothing_read : cookie_pairs (split_byte b';' []) ≡ []
unfolding cookie_pairs split_byte trim_space add_pair index_byte
nothing_read = refl

space_first :
    (s : Text) → cookie_pairs (split_byte b';' (b' ' ∷ s)) ≡ cookie_pairs (split_byte b';' s)
unfolding split_byte
space_first s = cookie_pairs_after_space (split_byte b';' s)

-- Formed pairs, joined to a cookie, are the pairs that are read from it.
pub split_cookie_pairs-join_parts :
    (kvs : List (Text × Text))
    → All Formed kvs
    → split_cookie_pairs (join_parts (map pair_text kvs)) ≡ kvs
unfolding split_cookie_pairs join_parts
split_cookie_pairs-join_parts [] f = nothing_read
split_cookie_pairs-join_parts (kv ∷ []) (f, fs) =
    ap cookie_pairs (split_byte_one b';' (pair_text kv) f.one_part) ∙ cookie_pairs-cons kv [] f
split_cookie_pairs-join_parts (kv ∷ kv' ∷ kvs) (f, fs) =
    let rest = join_parts (map pair_text (kv' ∷ kvs)) in
    ap cookie_pairs (split_byte-append b';' (pair_text kv) (b' ' ∷ rest) f.one_part)
    ∙ cookie_pairs-cons kv (split_byte b';' (b' ' ∷ rest)) f
    ∙ ap (◌∷◌ kv) (space_first rest ∙ split_cookie_pairs-join_parts (kv' ∷ kvs) fs)
