-- ===== src/ApiKey/Restart.antt =====
-- The key over changes and restarts.
use gemini_web2api_go_browse.Prelude.{
  ◌≡◌, refl, sym, ap, subst, ◌∙◌, Bool, true, false, List, [], ◌∷◌, some, arith, ltb, if◌then◌else◌,
  length, Text, is_empty, Bool-cases, inl, inr,
}
use gemini_web2api_go_browse.ApiKey.{
  ApiKeys, booted, new_api_key, init_api_key, rotate_api_key, set_api_key, is_locked, too_short,
  store_key,
}

-- A change of the key from the panel; the Boolean says whether the database takes it.
pub data Change : Type 0 where
  rotated : Text → Bool → Change
  chosen : Text → Bool → Change

pub change : ApiKeys → Change → ApiKeys
change s (rotated random kv_ok) = (rotate_api_key random kv_ok s).1
change s (chosen k kv_ok) = (set_api_key k kv_ok s).1

pub changes : ApiKeys → List Change → ApiKeys
unfolding change
changes s [] = s
changes s (c ∷ cs) = changes (change s c) cs

-- The state of a key that is kept in the database.
Kept : ApiKeys → Type 0
Kept s = (s.locked ≡ false) × (s.runtime ≡ s.kv) × (is_empty s.kv ≡ false)

store_key-Kept :
    (kv_ok : Bool) (k : Text) (s : ApiKeys)
    → is_empty k ≡ false
    → Kept s
    → Kept (store_key kv_ok k s).1
unfolding Kept store_key
store_key-Kept true k s n h = (h.0, refl, n)
store_key-Kept false k s n h = h

long_named : (k : Text) → ltb (length k) 20 ≡ false → is_empty k ≡ false
long_named [] h = absurd (ground arith)
long_named (c ∷ k) h = refl

change-open :
    (s : ApiKeys) (c : Change)
    → s.locked ≡ false
    → change s c ≡ elim c [
      | rotated random kv_ok ↦ (store_key kv_ok (new_api_key random) s).1
      | chosen k kv_ok ↦ (if ltb (length k) 20 then (some too_short, s) else store_key kv_ok k s).1
    ]
unfolding change rotate_api_key set_api_key
change-open s (rotated random kv_ok) e =
    ap (λ b. (if b then (some is_locked, s) else store_key kv_ok (new_api_key random) s).1) e
change-open s (chosen k kv_ok) e =
    ap
      (λ b.
        (if b
          then (some is_locked, s)
          else if ltb (length k) 20
          then (some too_short, s)
          else store_key kv_ok k s).1)
      e

change-locked : (s : ApiKeys) (c : Change) → s.locked ≡ true → change s c ≡ s
unfolding change rotate_api_key set_api_key
change-locked s (rotated random kv_ok) e =
    ap (λ b. (if b then (some is_locked, s) else store_key kv_ok (new_api_key random) s).1) e
change-locked s (chosen k kv_ok) e =
    ap
      (λ b.
        (if b
          then (some is_locked, s)
          else if ltb (length k) 20
          then (some too_short, s)
          else store_key kv_ok k s).1)
      e

change-Kept : (s : ApiKeys) (c : Change) → Kept s → Kept (change s c)
unfolding Kept new_api_key
change-Kept s (rotated random kv_ok) h =
    subst Kept (sym (change-open s (rotated random kv_ok) h.0))
      (store_key-Kept kv_ok (new_api_key random) s refl h)
change-Kept s (chosen k kv_ok) h =
    subst Kept (sym (change-open s (chosen k kv_ok) h.0)) (elim (Bool-cases (ltb (length k) 20)) [
      | inl short ↦ rw short h
      | inr long ↦ rw long (store_key-Kept kv_ok k s (long_named k long) h)
    ])

changes-Kept : (s : ApiKeys) (cs : List Change) → Kept s → Kept (changes s cs)
unfolding changes
changes-Kept s [] h = h
changes-Kept s (c ∷ cs) h = changes-Kept (change s c) cs (change-Kept s c h)

init-Kept : (random kv : Text) → Kept (init_api_key [] [] random true (booted kv))
unfolding Kept init_api_key new_api_key
init-Kept random [] = (refl, refl, refl)
init-Kept random (c ∷ kv) = (refl, refl, refl)

locked_changes : (s : ApiKeys) (cs : List Change) → s.locked ≡ true → changes s cs ≡ s
unfolding changes
locked_changes s [] h = refl
locked_changes s (c ∷ cs) h = ap (λ t. changes t cs) (change-locked s c h) ∙ locked_changes s cs h

-- Started with neither a flag nor API_KEY, on any database that takes a first key, and changed in any
-- way, whether or not the database takes the changes: a restart finds the key that was in use. Started
-- with a flag: no change has any effect on the key, in use or in the database.
pub changes-restart :
    (kv random again flag env : Text) (ok : Bool) (cs : List Change)
    → let s = changes (init_api_key [] [] random true (booted kv)) cs in
      let fixed = init_api_key flag env random ok (booted kv) in
      ((init_api_key [] [] again true (booted s.kv)).runtime ≡ s.runtime)
      × (is_empty flag ≡ false
          → (changes fixed cs ≡ fixed) × (fixed.runtime ≡ flag) × (fixed.kv ≡ kv))
unfolding init_api_key Kept
changes-restart kv random again flag env ok cs =
    let s = changes (init_api_key [] [] random true (booted kv)) cs in
    let fixed = init_api_key flag env random ok (booted kv) in
    (
      restart s (changes-Kept _ cs (init-Kept random kv)),
      λ n.
          rw n (
            locked_changes (record { locked = true; runtime = flag; kv = kv }) cs refl,
            refl,
            refl,
          ),
    )
  where
    restart :
        (s : ApiKeys) → Kept s → (init_api_key [] [] again true (booted s.kv)).runtime ≡ s.runtime
    restart s h = rw h.2 (sym h.1)
