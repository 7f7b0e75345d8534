-- ===== src/Stream/Gate/Chunks.antt =====
-- The gate does not depend on how a text is cut into deltas, and shows the text outside fences.
use gemini_web2api_go_browse.Prelude.{
  ℕ, zero, suc, ◌+◌, ◌-◌, ◌≤◌, ◌<◌, ◌≡◌, refl, sym, ap, ap₂, ◌∙◌, Bool, true, false, List, [], ◌∷◌,
  ◌++◌, none, some, arith, if◌then◌else◌, length, take, drop, Text, index, has_prefix, Bool-cases,
  inl, inr, append-nil, append_assoc, length-append, length-drop, length-index, length-prefix-le,
  has_prefix-append_right, index-append, drop-append, take-length-append, drop-length-append,
  Option-cases, subst,
}
use gemini_web2api_go_browse.Stream.Gate.{
  ToolFenceGate, push_loop, push, push_all, hold, leave_fence, enter_fence, tool_fence_open,
  tool_fence_close,
}
use gemini_web2api_go_browse.Stream.Gate.Cut.{
  before, from, before-from, before-append, from-append, index_found, index_missing, starts_there,
}

abbrev pub gate : Text → Text → Bool → ToolFenceGate
gate b s f = record { buf = b; sent = s; in_fence = f }

abbrev feed : Text → ToolFenceGate → ToolFenceGate
feed b g = record g { buf = g.buf ++ b }

-- A round outside a fence, by the place where the opening may begin.
pub settle : ℕ → Text → Text → ToolFenceGate
settle f s r =
    if has_prefix tool_fence_open r
    then push_loop f (gate (drop (length tool_fence_open) r) s true)
    else gate r s false

drop_nil : (j : ℕ) → drop {A = ℕ} j [] ≡ []
drop_nil zero = refl
drop_nil (suc j) = refl

drop-drop : (i j : ℕ) (s : Text) → drop (i + j) s ≡ drop j (drop i s)
drop-drop zero j s = let e : 0 + j ≡ j = omega arith in rw e
drop-drop (suc i) j [] = let e : suc i + j ≡ suc (i + j) = omega arith in rw e (sym (drop_nil j))
drop-drop (suc i) j (c ∷ s) =
    let e : suc i + j ≡ suc (i + j) = omega arith in rw e (drop-drop i j s)

split_back :
    (x r : Text)
    → (take (length (x ++ r) - length r) (x ++ r) ≡ x)
      × (drop (length (x ++ r) - length r) (x ++ r) ≡ r)
split_back x r =
    let e : length (x ++ r) - length r ≡ length x = omega (arith, length-append x r) in
    rw e (take-length-append x r, drop-length-append x r)

hold_lem :
    (b s : Text)
    → index tool_fence_open b ≡ none
    → hold (gate b s false) ≡ gate (from tool_fence_open b) (s ++ before tool_fence_open b) false
unfolding hold
hold_lem b s e =
    let x = before tool_fence_open b in
    let r = from tool_fence_open b in
    let (kept, rest) =
      subst (λ t. (take (length t - length r) t ≡ x) × (drop (length t - length r) t ≡ r))
        (before-from tool_fence_open b) (split_back x r) in
    ap (λ k. gate (drop (length b - k) b) (s ++ take (length b - k) b) false)
      (sym (index_missing _ _ b e).1)
    ∙ ap₂ (λ d t. gate d (s ++ t) false) rest kept

pub outside :
    (f : ℕ) (b s : Text)
    → push_loop (suc f) (gate b s false)
      ≡ settle f (s ++ before tool_fence_open b) (from tool_fence_open b)
unfolding push_loop settle enter_fence
outside f b s = elim (Option-cases (index tool_fence_open b)) [
  | inl e ↦ rw (e, push_loop) (rw ((index_missing _ _ b e).0) (hold_lem b s e))
  | inr (i, e) ↦
      let (kept, rest, at) = index_found tool_fence_open b i e in
      rw (e, push_loop)
        (rw at (
          ap₂ (λ d t. push_loop f (gate d (s ++ t) true))
            (drop-drop i (length tool_fence_open) b ∙ ap (drop (length tool_fence_open)) rest)
            kept))
]

-- A round inside a fence: without a closing all is held, else the fence is left behind it.
pub inside_open :
    (f : ℕ) (b s : Text)
    → index tool_fence_close b ≡ none
    → push_loop (suc f) (gate b s true) ≡ gate b s true
unfolding push_loop
inside_open f b s e = rw (e, push_loop)

pub inside_closed :
    (f : ℕ) (b s : Text) (j : ℕ)
    → index tool_fence_close b ≡ some j
    → push_loop (suc f) (gate b s true)
      ≡ push_loop f (gate (drop (j + length tool_fence_close) b) s false)
unfolding push_loop leave_fence
inside_closed f b s j e = rw (e, push_loop)

pub shorter_from : (b : Text) → length (from tool_fence_open b) ≤ length b
shorter_from b = omega (
  arith,
  ap length (before-from tool_fence_open b),
  length-append (before tool_fence_open b) (from tool_fence_open b),
)

pub settle_found :
    (f : ℕ) (s r : Text)
    → has_prefix tool_fence_open r ≡ true
    → settle f s r ≡ push_loop f (gate (drop (length tool_fence_open) r) s true)
unfolding settle
settle_found f s r y = rw y

pub settle_missing :
    (f : ℕ) (s r : Text) → has_prefix tool_fence_open r ≡ false → settle f s r ≡ gate r s false
unfolding settle
settle_missing f s r n = rw n

settle_same :
    (f g : ℕ) (s s' r r' : Text)
    → s ≡ s'
    → r ≡ r'
    → (has_prefix tool_fence_open r ≡ true
        → push_loop f (gate (drop (length tool_fence_open) r) s true)
          ≡ push_loop g (gate (drop (length tool_fence_open) r) s true))
    → settle f s r ≡ settle g s' r'
unfolding settle
settle_same f g s s' r r' es er h =
    elim (Bool-cases (has_prefix tool_fence_open r)) [ inl y ↦ rw y (h y) | inr n ↦ rw (n) refl ]
    ∙ ap₂ (settle g) es er

-- What is left behind a marker that the text begins with, or that stands at `j`.
pub left_of_prefix :
    (m r : Text) → has_prefix m r ≡ true → length (drop (length m) r) + length m ≡ length r
left_of_prefix m r y = omega (arith, length-drop (length m) r, length-prefix-le m r y)

pub left_of_index :
    (m b : Text) (j : ℕ)
    → index m b ≡ some j
    → length (drop (j + length m) b) + j + length m ≡ length b
left_of_index m b j e = omega (arith, length-drop (j + length m) b, length-index m b j e)

-- More fuel than bytes changes nothing.
enough_fuel :
    (f g : ℕ) (b s : Text) (inside : Bool)
    → length b < f
    → length b < g
    → push_loop f (gate b s inside) ≡ push_loop g (gate b s inside)
enough_fuel zero g b s inside h k = absurd (omega arith)
enough_fuel (suc f) zero b s inside h k = absurd (omega arith)
enough_fuel (suc f) (suc g) b s false h k =
    let r = from tool_fence_open b in
    outside f b s
    ∙ settle_same f g _ _ r r refl refl (λ y.
      enough_fuel f g (drop (length tool_fence_open) r) _ true
        (omega (arith, left_of_prefix tool_fence_open r y, shorter_from b))
        (omega (arith, left_of_prefix tool_fence_open r y, shorter_from b)))
    ∙ sym (outside g b s)
enough_fuel (suc f) (suc g) b s true h k = elim (Option-cases (index tool_fence_close b)) [
  | inl e ↦ inside_open f b s e ∙ sym (inside_open g b s e)
  | inr (j, e) ↦
      inside_closed f b s j e
      ∙ enough_fuel f g (drop (j + length tool_fence_close) b) s false
          (omega (arith, left_of_index tool_fence_close b j e))
          (omega (arith, left_of_index tool_fence_close b j e))
      ∙ sym (inside_closed g b s j e)
]

-- Looping on more text after a loop is looping on the whole text at once.
loop-append :
    (f g h : ℕ) (b s t : Text) (inside : Bool)
    → length b < f
    → length b + length t < g
    → length b + length t < h
    → push_loop h (feed t (push_loop f (gate b s inside))) ≡ push_loop g (gate (b ++ t) s inside)
loop-append zero g h b s t inside lf lg lh = absurd (omega arith)
loop-append (suc f) zero h b s t inside lf lg lh = absurd (omega arith)
loop-append (suc f) (suc g) zero b s t inside lf lg lh = absurd (omega arith)
loop-append (suc f) (suc g) (suc h) b s t true lf lg lh =
    elim (Option-cases (index tool_fence_close b)) [
      | inl e ↦ rw (inside_open f b s e) (
          enough_fuel (suc h) (suc g) (b ++ t) s true (omega (arith, length-append b t))
            (omega (arith, length-append b t)))
      | inr (j, e) ↦ rw (inside_closed f b s j e) (
          loop-append f g (suc h) (drop (j + length tool_fence_close) b) s t false
            (omega (arith, left_of_index tool_fence_close b j e))
            (omega (arith, left_of_index tool_fence_close b j e))
            (omega (arith, left_of_index tool_fence_close b j e))
          ∙ ap (λ d. push_loop g (gate d s false))
              (sym (
                drop-append (j + length tool_fence_close) b t
                  (length-index tool_fence_close b j e)))
          ∙ sym (inside_closed g (b ++ t) s j (index-append tool_fence_close b t j e)))
    ]
loop-append (suc f) (suc g) (suc h) b s t false lf lg lh =
    let r = from tool_fence_open b in
    let x = before tool_fence_open b in
    let whole : settle g ((s ++ x) ++ before tool_fence_open (r ++ t))
          (from tool_fence_open (r ++ t))
        ≡ push_loop (suc g) (gate (b ++ t) s false) =
      sym (
        outside g (b ++ t) s
        ∙ ap₂ (settle g)
            (ap (λ u. s ++ u) (before-append tool_fence_open b t)
              ∙ sym (append_assoc s x (before tool_fence_open (r ++ t))))
            (from-append tool_fence_open b t)) in
    elim (Bool-cases (has_prefix tool_fence_open r)) [
      | inl y ↦
          let (none_before, all_from) =
            starts_there _ _ (r ++ t) (has_prefix-append_right tool_fence_open r t y) in
          ap (λ u. push_loop (suc h) (feed t u)) (outside f b s ∙ settle_found f (s ++ x) r y)
          ∙ loop-append f g (suc h) (drop (length tool_fence_open) r) (s ++ x) t true
              (omega (arith, left_of_prefix tool_fence_open r y, shorter_from b))
              (omega (arith, left_of_prefix tool_fence_open r y, shorter_from b))
              (omega (arith, left_of_prefix tool_fence_open r y, shorter_from b))
          ∙ sym (
              ap₂ (settle g) (ap (λ u. (s ++ x) ++ u) none_before ∙ append-nil (s ++ x)) all_from
              ∙ settle_found g (s ++ x) (r ++ t) (has_prefix-append_right tool_fence_open r t y)
              ∙ ap (λ u. push_loop g (gate u (s ++ x) true))
                  (drop-append (length tool_fence_open) r t (length-prefix-le tool_fence_open r y)))
          ∙ whole
      | inr n ↦
          ap (λ u. push_loop (suc h) (feed t u)) (outside f b s ∙ settle_missing f (s ++ x) r n)
          ∙ outside h (r ++ t) (s ++ x)
          ∙ settle_same h g _ _ _ _ refl refl (λ y.
            enough_fuel h g (drop (length tool_fence_open) (from tool_fence_open (r ++ t))) _ true
              (omega (
                arith,
                left_of_prefix tool_fence_open (from tool_fence_open (r ++ t)) y,
                shorter_from (r ++ t),
                shorter_from b,
                length-append r t,
              ))
              (omega (
                arith,
                left_of_prefix tool_fence_open (from tool_fence_open (r ++ t)) y,
                shorter_from (r ++ t),
                shorter_from b,
                length-append r t,
              )))
          ∙ whole
    ]

-- A delta that is cut in two, pushed part by part, leaves the gate as the whole delta does: what was
-- sent, what is held back and whether a fence is open. This holds from every state of the gate.
pub push-push : (g : ToolFenceGate) (a b : Text) → push (push g a) b ≡ push g (a ++ b)
unfolding push
push-push g a b =
    let whole = g.buf ++ a in
    let first = push g a in
    let fuel = length (first.buf ++ b) + length whole + length b + 1 in
    enough_fuel (length (first.buf ++ b) + 1) fuel (first.buf ++ b) first.sent first.in_fence
      (omega arith) (omega arith)
    ∙ loop-append (length whole + 1) (length (g.buf ++ (a ++ b)) + 1) fuel whole g.sent b g.in_fence
        (omega arith) (omega (arith, length-append whole b, ap length (append_assoc g.buf a b)))
        (omega arith)
    ∙ ap (λ u. push_loop (length (g.buf ++ (a ++ b)) + 1) (gate u g.sent g.in_fence))
        (append_assoc g.buf a b)

-- The deltas one behind the other.
pub joined : List Text → Text
joined [] = []
joined (d ∷ ds) = d ++ joined ds

-- A text pushed in any pieces, at least one, leaves the gate as the text pushed at once does.
pub push_all-joined :
    (g : ToolFenceGate) (d : Text) (ds : List Text) → push_all g (d ∷ ds) ≡ push g (joined (d ∷ ds))
unfolding push_all joined
push_all-joined g d [] = rw append-nil
push_all-joined g d (e ∷ ds) = push_all-joined (push g d) e ds ∙ push-push g d (joined (e ∷ ds))
