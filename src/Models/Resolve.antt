-- ===== src/Models/Resolve.antt =====
-- resolveModel: which names resolve, and to what.
use gemini_web2api_go_browse.Prelude.{
  ℕ, suc, ◌+◌, zero, ◌≤◌, ◌≢◌, ◌⊎◌, ◌++◌, All, any, index, has_prefix, has_prefix-append,
  has_prefix-drop, take, drop, codes, sym, some_injective, some_ne_none, Option-cases, ◌≡◌, refl,
  ap, subst, ◌↔◌, inl, inr, Bool, true, false, not, ◌&&◌, ◌||◌, List, [], ◌∷◌, Option, none, some,
  arith, if◌then◌else◌, In-lt, get_elem?-some, lt→ltb, ltb→lt, length, keep, In, Bool-cases, Text,
  text_eq, In-keep, keep-In, text_eq_iff, ◌∙◌,
}
use gemini_web2api_go_browse.CookiePool.{CookieAccount, enabled, account_count}
use gemini_web2api_go_browse.Models.{
  ModelConfig, models, before_suffix, has_cookie, model_needs_login, available_models, model_named,
  base_name, Resolved, resolved, needs_account, unknown_model, refused, resolve_in, resolve_model,
}

-- Whether a name stands in a table.
abbrev listed : Text → List (Text × ModelConfig) → Bool
listed name [] = false
listed name ((n, mc) ∷ ms) = text_eq n name || listed name ms

-- No name stands twice.
abbrev single : List (Text × ModelConfig) → Bool
single [] = true
single ((n, mc) ∷ ms) = not (listed n ms) && single ms

listed-keep :
    (p : ModelConfig → Bool) (n : Text) (ms : List (Text × ModelConfig))
    → listed n ms ≡ false
    → model_named n (keep (λ m. p m.1) ms) ≡ none
unfolding model_named
listed-keep p n [] h = refl
listed-keep p n ((k, mc) ∷ ms) h = elim (Bool-cases (p mc)) [
  | inl y ↦ rw y (ground (arith, listed-keep p n ms))
  | inr z ↦ rw z (ground (arith, listed-keep p n ms))
]

-- The model that a name has among those that a test keeps.
abbrev if_kept : (ModelConfig → Bool) → Option ModelConfig → Option ModelConfig
if_kept p none = none
if_kept p (some mc) = if p mc then some mc else none

model_named-keep :
    (p : ModelConfig → Bool) (n : Text) (ms : List (Text × ModelConfig))
    → single ms ≡ true
    → model_named n (keep (λ m. p m.1) ms) ≡ if_kept p (model_named n ms)
unfolding model_named
model_named-keep p n [] h = refl
model_named-keep p n ((k, mc) ∷ ms) h =
    let fresh : listed k ms ≡ false = ground arith in
    let rest = model_named-keep p n ms (ground arith) in
    elim (Bool-cases (text_eq k n)) [
      | inl same ↦
          let k_is_n : k ≡ n = (text_eq_iff k n).0 same in
          let gone = listed-keep p n ms (subst (λ t. listed t ms ≡ false) k_is_n fresh) in
          elim (Bool-cases (p mc)) [
            | inl y ↦ rw (same, y) (rw same refl)
            | inr z ↦ rw (same, z) gone
          ]
      | inr other ↦ elim (Bool-cases (p mc)) [
        | inl y ↦ rw (other, y) (rw other rest)
        | inr z ↦ rw (other, z) rest
      ]
    ]

models-single : single models ≡ true
unfolding text_eq
models-single = refl

abbrev pub Signed : List CookieAccount → Type 0
Signed accounts = (a : CookieAccount) × In a accounts × (a.status ≡ enabled)

has_cookie-Signed : (accounts : List CookieAccount) → (has_cookie accounts ≡ true) ↔ Signed accounts
unfolding has_cookie account_count
has_cookie-Signed accounts =
    let on : CookieAccount → Bool = λ a. text_eq a.status enabled in
    (
      (λ h.
          let (a, at) =
            get_elem?-some (keep on accounts) 0 (ltb→lt 0 (length (keep on accounts)) h) in
          let (there, y) = In-keep on a accounts 0 at in
          (a, there, (text_eq_iff a.status enabled).0 y)),
      (λ (a, (k, at), e).
          let (j, there) = keep-In on a accounts k at ((text_eq_iff a.status enabled).1 e) in
          lt→ltb 0 (length (keep on accounts)) (omega (arith, In-lt a (keep on accounts) j there))),
    )

-- The names that resolve without an account; every other name of the table needs one.
abbrev pub open_names : List Text
open_names = codes "gemini-3.6-flash" ∷ codes "gemini-3.5-flash-lite" ∷ []

named-All :
    (P : Text → ModelConfig → Type 0) (n : Text) (mc : ModelConfig) (ms : List (Text × ModelConfig))
    → All (λ m. P m.0 m.1) ms
    → model_named n ms ≡ some mc
    → P n mc
unfolding model_named
named-All P n mc [] h e = absurd cc
named-All P n mc ((k, m) ∷ ms) (p, h) e = elim (Bool-cases (text_eq k n)) [
  | inl y ↦
      let name : k ≡ n = (text_eq_iff k n).0 y in
      let at : m ≡ mc = some_injective (rw y at e) in subst (λ t. P t mc) name (subst (P k) at p)
  | inr z ↦ named-All P n mc ms h (rw z at e)
]

-- The table has a model that needs no account under the two names, and under no other.
needs-open :
    (n : Text) (mc : ModelConfig)
    → model_named n models ≡ some mc
    → not (model_needs_login mc) ≡ any (text_eq n) open_names
unfolding model_needs_login text_eq
needs-open n mc =
    named-All (λ t m. not (model_needs_login m) ≡ any (text_eq t) open_names) n mc models
      (
        refl,
        (
          refl,
          (
            refl,
            (
              refl,
              (
                refl,
                (
                  refl,
                  (
                    refl,
                    (refl, (refl, (refl, (refl, (refl, (refl, (refl, (refl, (refl, tt))))))))),
                  ),
                ),
              ),
            ),
          ),
        ),
      )

-- What is asked of a name, of its model if it has one, and of whether an account is signed in.
abbrev pub verdict : Bool → Text → Option ModelConfig → Resolved
verdict signed n none = unknown_model n
verdict signed n (some mc) =
    if signed || any (text_eq n) open_names then resolved n mc else needs_account n

resolve_as_verdict :
    (accounts : List CookieAccount) (n : Text) (signed : Bool) (o : Option ModelConfig)
    → has_cookie accounts ≡ signed
    → model_named n models ≡ o
    → resolve_in accounts n (if signed then o else if_kept (λ mc. not (model_needs_login mc)) o)
      ≡ verdict signed n o
unfolding resolve_in refused
resolve_as_verdict accounts n true none signed e = rw e refl
resolve_as_verdict accounts n false none signed e = rw e refl
resolve_as_verdict accounts n true (some mc) signed e = refl
resolve_as_verdict accounts n false (some mc) signed e =
    let is_open = needs-open n mc e in
    elim (Bool-cases (model_needs_login mc)) [
      | inl y ↦
          let closed : any (text_eq n) open_names ≡ false = sym is_open ∙ ap not y in
          rw (y, closed) (rw (e, signed) refl)
      | inr z ↦
          let open_at : any (text_eq n) open_names ≡ true = sym is_open ∙ ap not z in
          rw (z, open_at) refl
    ]

available-named :
    (accounts : List CookieAccount) (n : Text)
    → model_named n (available_models accounts) ≡ (
        if has_cookie accounts
        then model_named n models
        else if_kept (λ mc. not (model_needs_login mc)) (model_named n models))
unfolding available_models
available-named accounts n = elim (Bool-cases (has_cookie accounts)) [
  | inl y ↦ rw y refl
  | inr z ↦ rw z (model_named-keep (λ mc. not (model_needs_login mc)) n models models-single)
]

-- A text at the place where a mark is found in it.
abbrev Splits : Text → Text → ℕ → ℕ → Type 0
Splits m s k i = (s ≡ take i s ++ (m ++ drop k s)) × (length (take i s) ≡ i)

index-some :
    (c : ℕ) (m s : Text) (i k : ℕ)
    → index (c ∷ m) s ≡ some i
    → k ≡ i + length (c ∷ m)
    → Splits (c ∷ m) s k i
unfolding index
index-some c m [] i k e at = absurd cc
index-some c m (d ∷ s) i zero e at = absurd (omega (arith, at))
index-some c m (d ∷ s) i (suc k) e at = elim (Bool-cases (has_prefix (c ∷ m) (d ∷ s))) [
  | inl y ↦
      let zero_i : 0 ≡ i = some_injective (rw y at e) in
      let same : length (c ∷ m) ≡ suc k = omega (arith, at, zero_i) in
      let found : Splits (c ∷ m) (d ∷ s) (suc k) 0 = (
        sym (
            subst (λ l. (c ∷ m) ++ drop l (d ∷ s) ≡ d ∷ s) same
              (has_prefix-drop (c ∷ m) (d ∷ s) y)),
        refl,
      ) in
      subst (Splits (c ∷ m) (d ∷ s) (suc k)) zero_i found
  | inr n ↦ elim (Option-cases (index (c ∷ m) s)) [
    | inl none_in ↦ absurd (some_ne_none (sym (rw (n, none_in) at e)))
    | inr (j, f) ↦
        let suc_i : suc j ≡ i = some_injective (rw (n, f) at e) in
        let (rest, long) = index-some c m s j k f (omega (arith, at, suc_i)) in
        let found : Splits (c ∷ m) (d ∷ s) (suc k) (suc j) =
          (ap (λ t. d ∷ t) rest, omega (arith, long)) in
        subst (Splits (c ∷ m) (d ∷ s) (suc k)) suc_i found
  ]
]

-- Where a mark stands, the first mark is found, there or before.
index-at :
    (c : ℕ) (m a b : Text) → (i : ℕ) × (index (c ∷ m) (a ++ (c ∷ m ++ b)) ≡ some i) × (i ≤ length a)
unfolding index
index-at c m [] b = (0, rw (has_prefix-append (c ∷ m) b) refl, omega arith)
index-at c m (d ∷ a) b = elim (Bool-cases (has_prefix (c ∷ m) (d ∷ (a ++ (c ∷ m ++ b))))) [
  | inl y ↦ (0, rw y refl, omega arith)
  | inr n ↦ let (i, e, le) = index-at c m a b in (suc i, rw (n, e) refl, omega (arith, le))
]

abbrev pub think_mark : Text
think_mark = codes "@think="

-- A name without what its first `@think=` begins, or the whole of a name that has none.
abbrev pub Cut : Text → Text → Type 0
Cut name n =
    ((n ≡ name) × ((a b : Text) → name ≢ a ++ (think_mark ++ b)))
    ⊎ ((rest : Text) × (name ≡ n ++ (think_mark ++ rest))
        × ((a b : Text) → name ≡ a ++ (think_mark ++ b) → length n ≤ length a))

found_before :
    (name : Text) (o : Option ℕ) (a b : Text)
    → index think_mark name ≡ o
    → name ≡ a ++ (think_mark ++ b)
    → (i : ℕ) × (o ≡ some i) × (i ≤ length a)
found_before name o a b e split =
    let (i, at, le) = index-at b'@' (codes "think=") a b in
    (i, sym e ∙ ap (index think_mark) split ∙ at, le)

base_name-Cut : (name : Text) → Cut name (base_name name)
unfolding base_name before_suffix
base_name-Cut name = elim (Option-cases (index think_mark name)) [
  | inl e ↦ rw e (
      inl (
        refl,
        (λ a b split.
            let (i, at, le) = found_before name none a b e split in some_ne_none (sym at)),
      ))
  | inr (i, e) ↦
      let (splits, long) = index-some b'@' (codes "think=") name i (i + 7) e refl in
      rw e (
        inr (
          drop (i + 7) name,
          splits,
          (λ a b split.
              let (j, at, le) = found_before name (some i) a b e split in
              let same : i ≡ j = some_injective at in omega (arith, long, le, same)),
        ))
]

-- For every name and every accounts: an account is signed in exactly when a row is enabled; and a
-- name is cut before its first @think=, and then resolves exactly to its model in the table, where an
-- account is signed in or the name is gemini-3.6-flash or gemini-3.5-flash-lite; any other name of the
-- table is refused as one that needs an account, and a name that is not in the table is refused as
-- unknown, with or without.
pub resolve_model-verdict :
    (accounts : List CookieAccount) (name : Text)
    → ((has_cookie accounts ≡ true) ↔ Signed accounts)
      × ((n : Text) × Cut name n
          × (resolve_model accounts name ≡ verdict (has_cookie accounts) n (model_named n models)))
unfolding resolve_model
resolve_model-verdict accounts name =
    let n = base_name name in
    (
      has_cookie-Signed accounts,
      (
        n,
        base_name-Cut name,
        ap (resolve_in accounts n) (available-named accounts n)
            ∙ resolve_as_verdict accounts n (has_cookie accounts) (model_named n models) refl refl,
      ),
    )
