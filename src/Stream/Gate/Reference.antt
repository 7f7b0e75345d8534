-- ===== src/Stream/Gate/Reference.antt =====
-- What the gate shows: the text outside the fences, as an independent reading of it gives.
use gemini_web2api_go_browse.Prelude.{
  ℕ, zero, suc, ◌+◌, ◌-◌, ◌<◌, ◌≡◌, refl, sym, ap, ◌∙◌, Bool, true, false, List, [], ◌∷◌, ◌++◌,
  none, some, arith, if◌then◌else◌, length, drop, Text, index, has_prefix, Bool-cases, inl, inr,
  append_assoc, length-prefix-le, ◌⊎◌,
}
use gemini_web2api_go_browse.Stream.Gate.{
  ToolFenceGate, new_tool_fence_gate, push_loop, push, push_all, tool_fence_open, tool_fence_close,
}
use gemini_web2api_go_browse.Stream.Gate.Cut.{before, from, short_from, before_has_none, agrees}
use gemini_web2api_go_browse.Stream.Gate.Chunks.{
  gate, outside, inside_open, inside_closed, settle_found, settle_missing, left_of_prefix,
  left_of_index, shorter_from, push_all-joined, joined,
}

-- The reference: a text without its fences, read byte by byte. `skip` bytes of a marker are left to
-- pass over; a fence that is not closed hides the rest.
pub outside_fences : ℕ → Bool → Text → Text
outside_fences skip inside [] = []
outside_fences (suc k) inside (c ∷ s) = outside_fences k inside s
outside_fences zero false (c ∷ s) = elim (has_prefix tool_fence_open (c ∷ s)) [
  | true ↦ outside_fences (length tool_fence_open - 1) true s
  | false ↦ c ∷ outside_fences zero false s
]
outside_fences zero true (c ∷ s) = elim (has_prefix tool_fence_close (c ∷ s)) [
  | true ↦ outside_fences (length tool_fence_close - 1) false s
  | false ↦ outside_fences zero true s
]

skip_fences :
    (k : ℕ) (inside : Bool) (s : Text)
    → outside_fences k inside s ≡ outside_fences 0 inside (drop k s)
unfolding outside_fences
skip_fences zero inside s = refl
skip_fences (suc k) inside [] = refl
skip_fences (suc k) inside (c ∷ s) = skip_fences k inside s

open_fence :
    (r : Text)
    → has_prefix tool_fence_open r ≡ true
    → outside_fences 0 false r ≡ outside_fences 0 true (drop (length tool_fence_open) r)
unfolding outside_fences
open_fence [] y = unfold has_prefix in cc
open_fence (c ∷ s) y = rw (y, outside_fences) (skip_fences 11 true s)

up_to_fence :
    (b : Text)
    → outside_fences 0 false b
      ≡ before tool_fence_open b ++ outside_fences 0 false (from tool_fence_open b)
unfolding outside_fences before from
up_to_fence [] = refl
up_to_fence (c ∷ s) = elim (Bool-cases (agrees tool_fence_open (c ∷ s))) [
  | inl y ↦ rw y refl
  | inr n ↦
      rw (n, before_has_none tool_fence_open c s n, outside_fences) (ap (◌∷◌ c) (up_to_fence s))
]

no_fence : (s : Text) → length s < length tool_fence_open → outside_fences 0 false s ≡ s
unfolding outside_fences
no_fence [] h = refl
no_fence (c ∷ s) h = elim (Bool-cases (has_prefix tool_fence_open (c ∷ s))) [
  | inl y ↦ absurd (omega (arith, length-prefix-le tool_fence_open (c ∷ s) y))
  | inr n ↦ rw (n, outside_fences) (ap (◌∷◌ c) (no_fence s (omega arith)))
]

close_fence :
    (b : Text)
    → ((index tool_fence_close b ≡ none) × (outside_fences 0 true b ≡ []))
      ⊎ ((j : ℕ) × (index tool_fence_close b ≡ some j)
          × (outside_fences 0 true b
              ≡ outside_fences 0 false (drop (j + length tool_fence_close) b)))
unfolding outside_fences index
close_fence [] = inl (refl, refl)
close_fence (c ∷ s) = elim (Bool-cases (has_prefix tool_fence_close (c ∷ s))) [
  | inl y ↦ inr (0, rw y, rw (y, outside_fences) (skip_fences 2 false s))
  | inr n ↦ elim (close_fence s) [
    | inl (e, hidden) ↦ inl (rw n (rw e), rw (n, outside_fences) hidden)
    | inr (j, e, shown) ↦
        let off : suc (j + 3) ≡ suc j + 3 = omega arith in
        inr (
          suc j,
          rw n (rw e),
          rw (n, outside_fences) (shown ∙ ap (λ k. outside_fences 0 false (drop k (c ∷ s))) (off)),
        )
  ]
]

-- What a state holds back: the buffer outside a fence, and nothing that will be shown inside one.
abbrev pub unsent : ToolFenceGate → Text
unsent g = if g.in_fence then [] else g.buf

loop_shows :
    (f : ℕ) (b s : Text) (inside : Bool)
    → length b < f
    → let g = push_loop f (gate b s inside) in s ++ outside_fences 0 inside b ≡ g.sent ++ unsent g
loop_shows zero b s inside h = absurd (omega arith)
loop_shows (suc f) b s true h = elim (close_fence b) [
  | inl (e, hidden) ↦ rw (inside_open f b s e) (ap (λ u. s ++ u) hidden)
  | inr (j, e, shown) ↦ rw (inside_closed f b s j e) (
      ap (λ u. s ++ u) shown
      ∙ loop_shows f (drop (j + length tool_fence_close) b) s false
          (omega (arith, left_of_index tool_fence_close b j e)))
]
loop_shows (suc f) b s false h =
    let r = from tool_fence_open b in
    let x = before tool_fence_open b in
    ap (λ u. s ++ u) (up_to_fence b)
    ∙ sym (append_assoc s x (outside_fences 0 false r))
    ∙ elim (Bool-cases (has_prefix tool_fence_open r)) [
      | inl y ↦ rw (outside f b s ∙ settle_found f (s ++ x) r y) (
          ap (λ u. (s ++ x) ++ u) (open_fence r y)
          ∙ loop_shows f (drop (length tool_fence_open) r) (s ++ x) true
              (omega (arith, left_of_prefix tool_fence_open r y, shorter_from b)))
      | inr n ↦
          rw (outside f b s ∙ settle_missing f (s ++ x) r n)
            (ap (λ u. (s ++ x) ++ u) (no_fence r (short_from _ _ b n)))
    ]

push_shows :
    (t : Text)
    → outside_fences 0 false t
      ≡ (push new_tool_fence_gate t).sent ++ unsent (push new_tool_fence_gate t)
unfolding push
push_shows t = loop_shows (length t + 1) t [] false (omega arith)

-- Whatever the pieces in which a text arrives, at least one: what the gate has sent, with the bytes
-- that it holds back outside a fence, is the text outside the fences, as the reference reads it.
pub push_all_shows :
    (d : Text) (ds : List Text)
    → let g = push_all new_tool_fence_gate (d ∷ ds) in
      outside_fences 0 false (joined (d ∷ ds)) ≡ g.sent ++ unsent g
push_all_shows d ds = rw (push_all-joined new_tool_fence_gate d ds) (push_shows (joined (d ∷ ds)))
