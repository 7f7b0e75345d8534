-- ===== src/ModelGuard/Spacing.antt =====
-- The fetches that the guard starts, over any requests.
use gemini_web2api_go_browse.Prelude.{
  ℕ, ◌+◌, ◌≤◌, ◌≡◌, refl, sym, ap, ◌∙◌, true, false, List, [], ◌∷◌, some, arith, ltb, ◌==◌,
  if◌then◌else◌, Bool-cases, inl, inr, ◌⊎◌, All,
}
use gemini_web2api_go_browse.ModelGuard.{
  Served, Fired, last_fired, set_fired, cooling, downgraded, model_guard_check,
}

-- The fetches that requests start, in order: the account and the time.
pub fetches : List Served → Fired → List (ℕ × ℕ)
fetches [] fired = []
fetches (c ∷ cs) fired =
    let (fires, fired') = model_guard_check c fired in
    let rest = fetches cs fired' in if fires then (c.account_id, c.now) ∷ rest else rest

-- Of two fetches for one account, the later comes five hours after the earlier or more.
abbrev After : ℕ → ℕ → List (ℕ × ℕ) → Type 0
After i t = All λ (f : ℕ × ℕ). f.0 ≡ i → t + 18000 ≤ f.1

abbrev pub Spaced : List (ℕ × ℕ) → Type 0
Spaced [] = Unit {0}
Spaced ((i, t) ∷ fs) = All (λ (f : ℕ × ℕ). f.0 ≡ i → t + 18000 ≤ f.1) fs × Spaced fs

last-set :
    (i j t : ℕ) (fired : Fired)
    → last_fired j (set_fired i t fired) ≡ (if i == j then some t else last_fired j fired)
unfolding last_fired set_fired
last-set i j t [] = ground arith
last-set i j t ((k, u) ∷ fired) = ground (arith, last-set i j t fired)

After-weaken : (i t u : ℕ) (fs : List (ℕ × ℕ)) → t ≤ u → After i u fs → After i t fs
After-weaken i t u [] le h = tt
After-weaken i t u (f ∷ fs) le (p, h) = ((λ e. omega (arith, p e)), After-weaken i t u fs le h)

-- Either the check starts nothing and records nothing, or the cooldown is over and it records the time.
check_cases :
    (c : Served) (fired : Fired)
    → (model_guard_check c fired ≡ (false, fired))
      ⊎ ((model_guard_check c fired ≡ (true, set_fired c.account_id c.now fired))
          × (cooling c.now (last_fired c.account_id fired) ≡ false))
unfolding model_guard_check
check_cases c fired = elim (Bool-cases (downgraded c)) [
  | inr n ↦ inl (rw n refl)
  | inl y ↦ elim (Bool-cases (cooling c.now (last_fired c.account_id fired))) [
    | inl a ↦ inl (rw y (rw a refl))
    | inr b ↦ inr ((rw y (rw b refl)), b)
  ]
]

fetches-After :
    (i t : ℕ) (cs : List Served) (fired : Fired)
    → last_fired i fired ≡ some t
    → After i t (fetches cs fired)
unfolding fetches cooling
fetches-After i t [] fired e = tt
fetches-After i t (c ∷ cs) fired e = elim (check_cases c fired) [
  | inl quiet ↦ rw quiet (fetches-After i t cs fired e)
  | inr (starts, over) ↦ rw starts (elim (Bool-cases (c.account_id == i)) [
    | inl same ↦
        let at : c.account_id ≡ i = ground arith in
        let known : last_fired c.account_id fired ≡ some t = ap (λ k. last_fired k fired) at ∙ e in
        let late : ltb c.now (t + 18000) ≡ false = ap (cooling c.now) (sym known) ∙ over in
        (
          (λ x. ground arith),
          After-weaken i t c.now _ (ground arith) (
              fetches-After i c.now cs (set_fired c.account_id c.now fired)
                (last-set c.account_id i c.now fired ∙ rw same refl)),
        )
    | inr other ↦ (
      (λ x. absurd (ground arith)),
      fetches-After i t cs (set_fired c.account_id c.now fired)
          (last-set c.account_id i c.now fired ∙ rw other e),
    )
  ])
]

-- For any requests, in any order of times, from any times of earlier fetches: of two fetches that the
-- guard starts for one account, the later one's time is at least five hours after the earlier one's.
pub fetches-Spaced : (cs : List Served) (fired : Fired) → Spaced (fetches cs fired)
unfolding fetches
fetches-Spaced [] fired = tt
fetches-Spaced (c ∷ cs) fired = elim (check_cases c fired) [
  | inl quiet ↦ rw quiet (fetches-Spaced cs fired)
  | inr (starts, over) ↦ rw starts (
    fetches-After c.account_id c.now cs (set_fired c.account_id c.now fired)
        (last-set c.account_id c.account_id c.now fired ∙ ground arith),
    fetches-Spaced cs (set_fired c.account_id c.now fired),
  )
]
