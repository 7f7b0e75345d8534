-- ===== src/AuthUser/Profile.antt =====
-- The slot in the name of a profile, written and read back.
use gemini_web2api_go_browse.Prelude.{
  ℕ, zero, suc, ◌+◌, ◌<◌, ◌≡◌, refl, sym, ap, ◌∙◌, true, [], ◌∷◌, ◌++◌, some, arith, length, drop,
  Text, has_prefix, drop-length-append, length-append, append_assoc, is_empty, not, ◌&&◌,
}
use gemini_web2api_go_browse.CookiePool.{trim_space}
use gemini_web2api_go_browse.AuthUser.{
  itoa, parse_auth_user, last_index, slot_mark, from_mark, auth_user_from_profile, legacy_from,
  is_legacy_multi_account_profile, all_digits,
}

-- The name that the old extension gave the profile of slot `n`.
abbrev pub slot_profile : Text → ℕ → Text
slot_profile base n = base ++ (slot_mark ++ itoa n)

-- Where the mark stands last in a text, it stands last behind any text before it.
last_index-append :
    (base s : Text) (i : ℕ)
    → last_index slot_mark s ≡ some i
    → last_index slot_mark (base ++ s) ≡ some (length base + i)
unfolding last_index
last_index-append [] s i e = e ∙ ap (λ k. some k) (omega arith)
last_index-append (c ∷ base) s i e =
    rw (last_index-append base s i e) (ap (λ k. some k) (omega arith))

-- A statement on the slots, one by one.
below_ten :
    (P : ℕ → Type 0)
    → P 0
    → P 1
    → P 2
    → P 3
    → P 4
    → P 5
    → P 6
    → P 7
    → P 8
    → P 9
    → (n : ℕ) → n < 10
    → P n
below_ten P p0 p1 p2 p3 p4 p5 p6 p7 p8 p9 zero h = p0
below_ten P p0 p1 p2 p3 p4 p5 p6 p7 p8 p9 (suc zero) h = p1
below_ten P p0 p1 p2 p3 p4 p5 p6 p7 p8 p9 (suc (suc zero)) h = p2
below_ten P p0 p1 p2 p3 p4 p5 p6 p7 p8 p9 (suc (suc (suc zero))) h = p3
below_ten P p0 p1 p2 p3 p4 p5 p6 p7 p8 p9 (suc (suc (suc (suc zero)))) h = p4
below_ten P p0 p1 p2 p3 p4 p5 p6 p7 p8 p9 (suc (suc (suc (suc (suc zero))))) h = p5
below_ten P p0 p1 p2 p3 p4 p5 p6 p7 p8 p9 (suc (suc (suc (suc (suc (suc zero)))))) h = p6
below_ten P p0 p1 p2 p3 p4 p5 p6 p7 p8 p9 (suc (suc (suc (suc (suc (suc (suc zero))))))) h = p7
below_ten P p0 p1 p2 p3 p4 p5 p6 p7 p8 p9 (suc (suc (suc (suc (suc (suc (suc (suc zero)))))))) h =
    p8
below_ten P p0 p1 p2 p3 p4 p5 p6 p7 p8 p9 (suc (suc (suc (suc (suc (suc (suc (suc (suc zero)))))))))
      h =
    p9
below_ten P p0 p1 p2 p3 p4 p5 p6 p7 p8 p9
      (suc (suc (suc (suc (suc (suc (suc (suc (suc (suc n)))))))))) h =
    absurd (omega arith)

mark_first : (n : ℕ) → n < 10 → last_index slot_mark (slot_mark ++ itoa n) ≡ some 0
unfolding last_index itoa has_prefix
mark_first =
    below_ten (λ n. last_index slot_mark (slot_mark ++ itoa n) ≡ some 0) refl refl refl refl refl
      refl refl refl refl refl

read_slot : (n : ℕ) → n < 10 → parse_auth_user (itoa n) ≡ n
unfolding parse_auth_user itoa trim_space
read_slot =
    below_ten (λ n. parse_auth_user (itoa n) ≡ n) refl refl refl refl refl refl refl refl refl refl

digits_only : (n : ℕ) → n < 10 → (not (is_empty (itoa n)) && all_digits (itoa n)) ≡ true
unfolding itoa all_digits
digits_only =
    below_ten (λ n. (not (is_empty (itoa n)) && all_digits (itoa n)) ≡ true) refl refl refl refl
      refl refl refl refl refl refl

behind_mark : (base s : Text) → drop (length base + 0 + 2) (base ++ (slot_mark ++ s)) ≡ s
behind_mark base s =
    let at : length base + 0 + 2 ≡ length (base ++ slot_mark) =
      omega (arith, length-append base slot_mark) in
    ap (λ k. drop k (base ++ (slot_mark ++ s))) at
    ∙ ap (drop (length (base ++ slot_mark))) (sym (append_assoc base slot_mark s))
    ∙ drop-length-append (base ++ slot_mark) s

-- For every name and every slot from 0 to 9: the profile that is the name, `-u` and the slot is read
-- back as that slot, whatever marks the name itself has, and it is known as an old profile.
pub auth_user_from_profile-slot :
    (base : Text) (n : ℕ)
    → n < 10
    → (auth_user_from_profile (slot_profile base n) ≡ n)
      × (is_legacy_multi_account_profile (slot_profile base n) ≡ true)
unfolding auth_user_from_profile is_legacy_multi_account_profile from_mark legacy_from
auth_user_from_profile-slot base n h =
    let found = last_index-append base (slot_mark ++ itoa n) 0 (mark_first n h) in
    (
      rw found (ap parse_auth_user (behind_mark base (itoa n)) ∙ read_slot n h),
      rw found (
          ap (λ t. not (is_empty t) && all_digits t) (behind_mark base (itoa n)) ∙ digits_only n h),
    )
