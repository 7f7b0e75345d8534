-- ===== src/Runtime/Examples.antt =====
-- Concrete configurations, and a concrete text of a configuration.
use gemini_web2api_go_browse.Prelude.{
  zero, suc, ℤ, pos, negsuc, ◌≡◌, refl, Bool, true, false, List, [], ◌∷◌, ◌++◌, Option, none, some,
  is_empty, length, take, drop, Text, codes, take-length-append, drop-length-append, subst,
  some_injective,
}
use gemini_web2api_go_browse.CookiePool.{CookieAccount}
use gemini_web2api_go_browse.Runtime.{RuntimeConfig, validate_runtime_config, init_runtime_config}
use gemini_web2api_go_browse.Runtime.Restart.{Change, save_all, carried, save_all-restart}

abbrev start : RuntimeConfig
start = record {
  retry_attempts = pos 3;
  retry_delay_sec = pos 2;
  request_timeout = pos 180;
  default_model = codes "gemini-3.6-flash";
  per_ip_concurrent = pos 4;
  per_ip_rpm = pos 30;
  per_ip_rph = pos 500;
  retention_days = pos 30;
  log_requests = true;
  impersonate = codes "chrome";
  gemini_bl = codes "boq";
  proxy_cooldown_min = pos 120;
  fallback_direct = false;
  fallback_anon = false;
  gemini_bl_auto = true;
  max_prompt_bytes = pos 130000;
  multi_turn = false;
  auto_delete_conversation = false;
  anon_first = false;
  temporary_chat = false;
  browser_refresh_minutes = pos 10;
  media_use_auto_bl = true;
}

put_int : ℤ → Text → Text
put_int (pos n) s = 0 ∷ n ∷ s
put_int (negsuc n) s = 1 ∷ n ∷ s

put_bool : Bool → Text → Text
put_bool true s = 1 ∷ s
put_bool false s = 0 ∷ s

put_text : Text → Text → Text
put_text t s = length t ∷ t ++ s

module _ {A : Type 0} where
  get_int : (ℤ → Text → Option A) → Text → Option A
  get_int k [] = none
  get_int k (t ∷ []) = none
  get_int k (zero ∷ n ∷ s) = k (pos n) s
  get_int k (suc t ∷ n ∷ s) = k (negsuc n) s

  get_bool : (Bool → Text → Option A) → Text → Option A
  get_bool k [] = none
  get_bool k (zero ∷ s) = k false s
  get_bool k (suc t ∷ s) = k true s

  get_text : (Text → Text → Option A) → Text → Option A
  get_text k [] = none
  get_text k (n ∷ s) = k (take n s) (drop n s)

  get_int-put_int : (x : ℤ) (s : Text) (k : ℤ → Text → Option A) → get_int k (put_int x s) ≡ k x s
  unfolding get_int put_int
  get_int-put_int (pos n) s k = refl
  get_int-put_int (negsuc n) s k = refl

  get_bool-put_bool :
      (x : Bool) (s : Text) (k : Bool → Text → Option A) → get_bool k (put_bool x s) ≡ k x s
  unfolding get_bool put_bool
  get_bool-put_bool true s k = refl
  get_bool-put_bool false s k = refl

  get_text-put_text : (x s : Text) (k : Text → Text → Option A) → get_text k (put_text x s) ≡ k x s
  unfolding get_text put_text
  get_text-put_text x s k = rw (take-length-append x s, drop-length-append x s) refl

abbrev written : RuntimeConfig → Text
written c = put_int c.retry_attempts (
    put_int c.retry_delay_sec (
      put_int c.request_timeout (
        put_int c.per_ip_concurrent (
          put_int c.per_ip_rpm (
            put_int c.per_ip_rph (
              put_int c.retention_days (
                put_int c.proxy_cooldown_min (
                  put_int c.max_prompt_bytes (
                    put_int c.browser_refresh_minutes (
                      put_bool c.log_requests (
                        put_bool c.fallback_direct (
                          put_bool c.fallback_anon (
                            put_bool c.gemini_bl_auto (
                              put_bool c.multi_turn (
                                put_bool c.auto_delete_conversation (
                                  put_bool c.anon_first (
                                    put_bool c.temporary_chat (
                                      put_bool c.media_use_auto_bl (
                                        put_text c.default_model (
                                          put_text c.impersonate
                                            (put_text c.gemini_bl [])))))))))))))))))))))

abbrev encode : RuntimeConfig → Option Text
encode c = some (written c)

abbrev decode : Text → RuntimeConfig → Option RuntimeConfig
decode t base =
    get_int
      (λ retry_attempts s.
        get_int
          (λ retry_delay_sec s.
            get_int
              (λ request_timeout s.
                get_int
                  (λ per_ip_concurrent s.
                    get_int
                      (λ per_ip_rpm s.
                        get_int
                          (λ per_ip_rph s.
                            get_int
                              (λ retention_days s.
                                get_int
                                  (λ proxy_cooldown_min s.
                                    get_int
                                      (λ max_prompt_bytes s.
                                        get_int
                                          (λ browser_refresh_minutes s.
                                            get_bool
                                              (λ log_requests s.
                                                get_bool
                                                  (λ fallback_direct s.
                                                    get_bool
                                                      (λ fallback_anon s.
                                                        get_bool
                                                          (λ gemini_bl_auto s.
                                                            get_bool
                                                            (λ multi_turn s.
                                                            get_bool
                                                            (λ auto_delete_conversation s.
                                                            get_bool
                                                            (λ anon_first s.
                                                            get_bool
                                                            (λ temporary_chat s.
                                                            get_bool
                                                            (λ media_use_auto_bl s.
                                                            get_text
                                                            (λ default_model s.
                                                            get_text
                                                            (λ impersonate s.
                                                            get_text
                                                            (λ gemini_bl s. some (record {
                                                            retry_attempts = retry_attempts;
                                                            retry_delay_sec = retry_delay_sec;
                                                            request_timeout = request_timeout;
                                                            per_ip_concurrent = per_ip_concurrent;
                                                            per_ip_rpm = per_ip_rpm;
                                                            per_ip_rph = per_ip_rph;
                                                            retention_days = retention_days;
                                                            proxy_cooldown_min = proxy_cooldown_min;
                                                            max_prompt_bytes = max_prompt_bytes;
                                                            browser_refresh_minutes =
                                                            browser_refresh_minutes;
                                                            log_requests = log_requests;
                                                            fallback_direct = fallback_direct;
                                                            fallback_anon = fallback_anon;
                                                            gemini_bl_auto = gemini_bl_auto;
                                                            multi_turn = multi_turn;
                                                            auto_delete_conversation =
                                                            auto_delete_conversation;
                                                            anon_first = anon_first;
                                                            temporary_chat = temporary_chat;
                                                            media_use_auto_bl = media_use_auto_bl;
                                                            default_model = default_model;
                                                            impersonate = impersonate;
                                                            gemini_bl = gemini_bl;
                                                            }))
                                                            s)
                                                            s)
                                                            s)
                                                            s)
                                                            s)
                                                            s)
                                                            s)
                                                            s)
                                                          s)
                                                      s)
                                                  s)
                                              s)
                                          s)
                                      s)
                                  s)
                              s)
                          s)
                      s)
                  s)
              s)
          s)
      t

decode-written : (c base : RuntimeConfig) → decode (written c) base ≡ some c
decode-written c base = simp (get_int-put_int, get_bool-put_bool, get_text-put_text)

decode-encode : (c base : RuntimeConfig) (b : Text) → encode c ≡ some b → decode b base ≡ some c
decode-encode c base b e =
    subst (λ t. decode t base ≡ some c) (some_injective e) (decode-written c base)

shown : (x : ℤ) (s : Text) → is_empty (put_int x s) ≡ false
unfolding put_int
shown (pos n) s = refl
shown (negsuc n) s = refl

written_full : (c : RuntimeConfig) → is_empty (written c) ≡ false
written_full c = shown c.retry_attempts _

encode_full : (c : RuntimeConfig) (b : Text) → encode c ≡ some b → is_empty b ≡ false
encode_full c b e = subst (λ t. is_empty t ≡ false) (some_injective e) (written_full c)

abbrev nobody : List CookieAccount
nobody = []

abbrev changes : List Change
changes =
    record { db_ok = true; accounts = nobody; next = record start { retry_attempts = pos 5 } }
    ∷ record { db_ok = true; accounts = nobody; next = record start { retry_attempts = negsuc 0 } }
    ∷ record { db_ok = false; accounts = nobody; next = start }
    ∷ []

save_all-restart_example :
    let s = save_all encode decode changes (init_runtime_config encode decode nobody start []) in
    (init_runtime_config encode decode nobody start s.stored).active
    ≡ carried start s.active (validate_runtime_config nobody s.active)
save_all-restart_example =
    save_all-restart encode decode decode-encode encode_full changes nobody nobody start
