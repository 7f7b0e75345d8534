-- ===== src/Conversation/Cap.antt =====
-- The store of conversations never holds more than its cap.
use gemini_web2api_go_browse.Prelude.{
  ℕ, suc, ◌+◌, ◌≤◌, ◌<◌, ◌≡◌, refl, sym, subst, Bool, true, false, not, [], ◌∷◌, none, some, arith,
  ltb, if◌then◌else◌, length, keep, length-keep-le, Text, text_eq, text_eq_iff, is_empty,
  Bool-cases, inl, inr, ◌⊎◌, All,
}
use gemini_web2api_go_browse.Conversation.{
  ConvState, Store, conv_max, conv_put, set_key, oldest, older, evict, delete_key, expired,
}

set_key-length :
    (k : Text) (v : ConvState) (store : Store) → length (set_key k v store) ≤ length store + 1
unfolding set_key
set_key-length k v [] = omega arith
set_key-length k v ((j, u) ∷ store) = ground (arith, set_key-length k v store)

-- `k` is a key of the store.
has_key : Text → Store → Bool
has_key k [] = false
has_key k ((j, v) ∷ store) = if text_eq j k then true else has_key k store

delete_key-length :
    (k : Text) (store : Store)
    → has_key k store ≡ true
    → suc (length (delete_key k store)) ≤ length store
unfolding delete_key has_key
delete_key-length k [] h = absurd (cc)
delete_key-length k ((j, v) ∷ store) h = elim (Bool-cases (text_eq j k)) [
  | inl y ↦
      rw y (omega (arith, length-keep-le (λ (e : Text × ConvState). not (text_eq e.0 k)) store))
  | inr n ↦ rw n (omega (arith, delete_key-length k store (rw n at h)))
]

-- Every key of the store passes the test that `delete(convStore, oldestK)` is guarded by.
abbrev pub NamedKeys : Store → Type 0
NamedKeys = All λ (e : Text × ConvState). is_empty e.0 ≡ false

has_key_later :
    (i k : Text) (v : ConvState) (store : Store)
    → has_key k store ≡ true
    → has_key k ((i, v) ∷ store) ≡ true
unfolding has_key
has_key_later i k v store h = elim (Bool-cases (text_eq i k)) [ inl y ↦ rw y refl | inr n ↦ rw n h ]

has_key_here :
    (i k : Text) (v : ConvState) (store : Store) → k ≡ i → has_key k ((i, v) ∷ store) ≡ true
unfolding has_key
has_key_here i k v store e = let y : text_eq i k ≡ true = (text_eq_iff i k).1 (sym e) in rw y refl

-- The oldest entry is one of the entries, if there is any.
oldest_is_key :
    (store : Store) (j : Text) (u : ℕ)
    → (k : Text) × (t : ℕ) × (oldest (some (j, u)) store ≡ some (k, t))
      × ((k ≡ j) ⊎ (has_key k store ≡ true))
unfolding oldest older has_key
oldest_is_key [] j u = (j, u, refl, inl refl)
oldest_is_key ((i, v) ∷ store) j u = elim (Bool-cases (ltb v.updated u)) [
  | inl y ↦
      let (k, t, e, at) = oldest_is_key store i v.updated in
      (
        k,
        t,
        rw y e,
        inr (elim at [
          | inl here ↦ has_key_here i k v store here
          | inr there ↦ has_key_later i k v store there
        ]),
      )
  | inr n ↦
      let (k, t, e, at) = oldest_is_key store j u in
      (
        k,
        t,
        rw n e,
        elim at [ inl here ↦ inl here | inr there ↦ inr (has_key_later i k v store there) ],
      )
]

key-Named :
    (store : Store) (k : Text) → NamedKeys store → has_key k store ≡ true → is_empty k ≡ false
unfolding has_key
key-Named [] k h y = absurd (cc)
key-Named ((j, v) ∷ store) k (n, h) y = elim (Bool-cases (text_eq j k)) [
  | inl here ↦ subst (λ t. is_empty t ≡ false) ((text_eq_iff j k).0 here) n
  | inr there ↦ key-Named store k h (rw there at y)
]

keep-Named :
    (p : Text × ConvState → Bool) (store : Store) → NamedKeys store → NamedKeys (keep p store)
keep-Named p [] h = tt
keep-Named p (e ∷ store) (n, h) = elim (Bool-cases (p e)) [
  | inl y ↦ rw y (n, keep-Named p store h)
  | inr z ↦ rw z (keep-Named p store h)
]

set_key-Named :
    (k : Text) (v : ConvState) (store : Store)
    → is_empty k ≡ false
    → NamedKeys store
    → NamedKeys (set_key k v store)
unfolding set_key
set_key-Named k v [] n h = (n, tt)
set_key-Named k v ((j, u) ∷ store) n (m, h) = elim (Bool-cases (text_eq j k)) [
  | inl y ↦ rw y (m, h)
  | inr z ↦ rw z (m, set_key-Named k v store n h)
]

evict-length :
    (store : Store)
    → NamedKeys store
    → 0 < length store
    → suc (length (evict (oldest none store) store)) ≤ length store
unfolding oldest older evict
evict-length [] h pos = absurd (omega arith)
evict-length ((j, v) ∷ store) (n, h) pos =
    let (k, t, e, at) = oldest_is_key store j v.updated in
    let all = (j, v) ∷ store in
    let named : NamedKeys all = (n, h) in
    let there : has_key k all ≡ true = elim at [
      | inl here ↦ has_key_here j k v store here
      | inr y ↦ has_key_later j k v store y
    ] in
    rw e (rw (key-Named all k named there) (delete_key-length k all there))

-- For every store of at most 4000 conversations with no empty key: whatever is put, the store holds
-- at most 4000 conversations after it.
pub conv_put-length :
    (now : ℕ) (key : Text) (st : ConvState) (store : Store)
    → NamedKeys store
    → length store ≤ 4000
    → length (conv_put now key st store) ≤ 4000
unfolding conv_put
conv_put-length now key st store named cap = elim (Bool-cases (is_empty key)) [
  | inl y ↦ rw y cap
  | inr n ↦
      let store' = set_key key (record st { updated = now }) store in
      let fresh = keep (λ (e : Text × ConvState). not (expired now e.1)) store' in
      let grown = set_key-length key (record st { updated = now }) store in
      let less = length-keep-le (λ (e : Text × ConvState). not (expired now e.1)) store' in
      let named' =
        keep-Named (λ (e : Text × ConvState). not (expired now e.1)) store'
          (set_key-Named key (record st { updated = now }) store n named) in
      elim (Bool-cases (ltb conv_max (length store'))) [
        | inr small ↦ rw (n, small) (ground arith)
        | inl over ↦ elim (Bool-cases (ltb conv_max (length fresh))) [
          | inr fits ↦ rw (n, over, fits) (ground arith)
          | inl full ↦
              let pos : 0 < length fresh = ground arith in
              rw (n, over, full) (omega (arith, evict-length fresh named' pos, grown, less, cap))
        ]
      ]
]
