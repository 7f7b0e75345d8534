-- ===== src/Conversation/Latest.antt =====
-- What is put is what is found_state, until it expires; the eviction takes another conversation.
use gemini_web2api_go_browse.Prelude.{
  ℕ, ◌<◌, ◌≡◌, false, [], ◌∷◌, leb, length, keep, Text, text_eq, All,
}
use gemini_web2api_go_browse.Conversation.{ConvState, Store}

abbrev Entry : Type 0
Entry = Text × ConvState

abbrev pub DistinctStore : Store → Type 0
DistinctStore [] = Unit {0}
DistinctStore ((k, v) ∷ store) =
    All (λ (e : Entry). text_eq e.0 k ≡ false) store × DistinctStore store

-- Every conversation of the store was put before `now`.
abbrev pub PutBefore : ℕ → Store → Type 0
PutBefore now = All λ (e : Entry). e.1.updated < now

-- How many entries were put at `now` or after.
young : ℕ → Store → ℕ
young now store = length (keep (λ (e : Entry). leb now e.1.updated) store)
