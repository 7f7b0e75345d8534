-- ===== src/Runtime/Restart.antt =====
-- The configuration in use over changes from the panel and restarts.
use gemini_web2api_go_browse.Prelude.{
  Between, ◌≡◌, ◌≢◌, refl, ◌⊎◌, inl, inr, Bool, false, List, [], ◌∷◌, Option, none, some, is_empty,
  Text, Bool-cases, Option-cases,
}
use gemini_web2api_go_browse.CookiePool.{CookieAccount}
use gemini_web2api_go_browse.Models.{ModelConfig, resolved, resolve_model}
use gemini_web2api_go_browse.Runtime.{
  RuntimeConfig, ConfigError, validate_runtime_config, Runtime, store_config, save_checked,
  save_runtime_config, accepted, read_over, init_runtime_config,
}

-- The model of a configuration resolves, and the two texts that go upstream are not empty.
abbrev pub Sound : List CookieAccount → RuntimeConfig → Type 0
Sound accounts c =
    ((n : Text) × (mc : ModelConfig) × (resolve_model accounts c.default_model ≡ resolved n mc))
    × (c.impersonate ≢ [])
    × (c.gemini_bl ≢ [])

-- The ten numbers with the ranges that the source documents for them.
unfoldable pub InRange : RuntimeConfig → Type 0
InRange c =
    Between 1 10 c.retry_attempts
    × Between 0 60 c.retry_delay_sec
    × Between 5 600 c.request_timeout
    × Between 0 1000 c.per_ip_concurrent
    × Between 0 10000 c.per_ip_rpm
    × Between 0 100000 c.per_ip_rph
    × Between 1 3650 c.retention_days
    × Between 0 10080 c.proxy_cooldown_min
    × Between 0 10000000 c.max_prompt_bytes
    × Between 0 1440 c.browser_refresh_minutes

-- A change from the panel: whether the database takes it, the accounts at its time, and what is asked.
pub record Change : Type 0 where
  pub db_ok : Bool
  pub accounts : List CookieAccount
  pub next : RuntimeConfig

-- The reference: what a start makes of the configuration that was in use, from what is said against it.
abbrev pub carried : RuntimeConfig → RuntimeConfig → Option ConfigError → RuntimeConfig
carried base c none = c
carried base c (some e) = base

accepted-carried :
    (base c : RuntimeConfig) (o : Option ConfigError) → accepted base c o ≡ carried base c o
unfolding accepted
accepted-carried base c none = refl
accepted-carried base c (some e) = refl

carried-base : (base : RuntimeConfig) (o : Option ConfigError) → base ≡ carried base base o
carried-base base none = refl
carried-base base (some e) = refl

module _ (encode : RuntimeConfig → Option Text)
    (decode : Text → RuntimeConfig → Option RuntimeConfig) where
  pub save_all : List Change → Runtime → Runtime
  save_all [] s = s
  save_all (c ∷ cs) s =
      save_all cs (save_runtime_config encode decode c.db_ok c.accounts c.next s).1

  -- Nothing is stored and the start's configuration is in use, or what is in use is stored.
  Stored : RuntimeConfig → Runtime → Type 0
  Stored base s = ((s.stored ≡ []) × (s.active ≡ base)) ⊎ (encode s.active ≡ some s.stored)

  save_runtime_config-Stored :
      (base : RuntimeConfig) (db_ok : Bool) (accounts : List CookieAccount) (next : RuntimeConfig)
      (s : Runtime)
      → Stored base s
      → Stored base (save_runtime_config encode decode db_ok accounts next s).1
  unfolding save_runtime_config save_checked store_config Stored
  save_runtime_config-Stored base db_ok accounts next s h =
      elim (Option-cases (validate_runtime_config accounts next)) [
        | inr (e, bad) ↦ rw bad h
        | inl good ↦ elim (Option-cases (encode next)) [
          | inl none_of ↦ rw (good, none_of) h
          | inr (b, text) ↦ elim (Bool-cases db_ok) [
            | inl y ↦ rw (good, text) (rw y (inr text))
            | inr n ↦ rw (good, text) (rw n h)
          ]
        ]
      ]

  save_all-Stored :
      (base : RuntimeConfig) (cs : List Change) (s : Runtime)
      → Stored base s
      → Stored base (save_all cs s)
  unfolding save_all
  save_all-Stored base [] s h = h
  save_all-Stored base (c ∷ cs) s h =
      save_all-Stored base cs (save_runtime_config encode decode c.db_ok c.accounts c.next s).1
        (save_runtime_config-Stored base c.db_ok c.accounts c.next s h)

  module _
      (decode-encode : (c base : RuntimeConfig) (b : Text)
        → encode c ≡ some b
        → decode b base ≡ some c)
      (encode_some : (c : RuntimeConfig) (b : Text) → encode c ≡ some b → is_empty b ≡ false) where
    restart_of :
        (accounts : List CookieAccount) (base : RuntimeConfig) (s : Runtime)
        → Stored base s
        → (init_runtime_config encode decode accounts base s.stored).active
          ≡ carried base s.active (validate_runtime_config accounts s.active)
    unfolding init_runtime_config read_over accepted Stored
    restart_of accounts base s (inl (nothing, same)) =
        rw (nothing, same) (carried-base base (validate_runtime_config accounts base))
    restart_of accounts base s (inr text) =
        let full = encode_some s.active s.stored text in
        let back = decode-encode s.active base s.stored text in
        rw (full, back) (accepted-carried base s.active (validate_runtime_config accounts s.active))

    -- Where encoding/json reads back what it wrote, and never writes an empty text: started on an empty
    -- table and changed in any way, whether or not a change is accepted, encoded and taken by the
    -- database, a restart with the same flags finds the configuration that was in use if it is
    -- accepted with the accounts of that time, and the start's configuration otherwise.
    pub save_all-restart :
        (cs : List Change) (accounts accounts' : List CookieAccount) (base : RuntimeConfig)
        → let s = save_all cs (init_runtime_config encode decode accounts base []) in
          (init_runtime_config encode decode accounts' base s.stored).active
          ≡ carried base s.active (validate_runtime_config accounts' s.active)
    unfolding init_runtime_config Stored
    save_all-restart cs accounts accounts' base =
        restart_of accounts' base (save_all cs (record { active = base; stored = [] }))
          (save_all-Stored base cs (record { active = base; stored = [] }) (inl (refl, refl)))
