-- ===== src/Request.antt =====
-- internal/app/gemini.go: streamGenerateWithFiles, from the choice of an account and an exit to the answer.
-- This file has what its parts share: the state, and `Upstream`, the side of the request that lies
-- outside: the requests to Google and the rotation, which read and change an outside state `S`. Login
-- finds an account with a token, Files prepares the attachments, Attempts is the loop of requests, and
-- Generate puts them together. The bodies and headers that are built of a `Sent`, the media files that
-- are fetched after an answer and the deletion of its conversation are not part of it.
pub mod Kept
pub mod Login
pub mod Files
pub mod Attempts
pub mod Generate
pub mod Wired
mod Examples
use gemini_web2api_go_browse.Prelude.{
  ℕ, ◌≡◌, Bool, true, false, not, ◌&&◌, ◌||◌, List, [], ◌∷◌, Option, none, some, amount,
  if◌then◌else◌, index, is_empty, Text, codes,
}
use gemini_web2api_go_browse.RateLimit.{Limits, Slots}
use gemini_web2api_go_browse.ProxyPool.{Pool, Settings}
use gemini_web2api_go_browse.CookiePool.{CookieAccount}
use gemini_web2api_go_browse.CookiePool.Identity.{DistinctAccounts, identities}
use gemini_web2api_go_browse.AuthUser.{itoa}
use gemini_web2api_go_browse.Models.{ModelConfig, model_needs_login}
use gemini_web2api_go_browse.Runtime.{RuntimeConfig}
use gemini_web2api_go_browse.Xsrf.{Result}

-- rtCfg() as the limits and the choice of an exit read it.
abbrev pub settings_of : RuntimeConfig → Settings
settings_of c = record {
  limits = record {
    per_ip_concurrent = amount c.per_ip_concurrent;
    per_ip_rpm = amount c.per_ip_rpm;
    per_ip_rph = amount c.per_ip_rph;
  };
  proxy_cooldown_min = amount c.proxy_cooldown_min;
  fallback_direct = c.fallback_direct;
}

unfoldable pub temporary_chat_eligible : RuntimeConfig → Bool
temporary_chat_eligible c = c.temporary_chat && not c.multi_turn

unfoldable pub anon_first_eligible : RuntimeConfig → ModelConfig → Bool → Bool
anon_first_eligible c mc has_attachment =
    c.anon_first && not has_attachment && not (model_needs_login mc)

unfoldable pub account_display_name : CookieAccount → Text
account_display_name a = if is_empty a.label then b'#' ∷ itoa a.id else a.label

contains : Text → Text → Bool
contains p s = elim (index p s) [ none ↦ false | some k ↦ true ]

unfoldable pub is_timeout_error : Text → Bool
unfolding contains
is_timeout_error msg =
    contains (codes "context deadline exceeded") msg
    || contains (codes "Client.Timeout") msg
    || contains (codes "i/o timeout") msg

pub record PendingUpload : Type 0 where
  pub data_of : Text
  pub name : Text
  pub mime : Text
  pub kind : ℕ

pub record FileRef : Type 0 where
  pub ref : Text
  pub name : Text
  pub kind : ℕ
  pub mime : Text

-- One request to StreamGenerate: what its body, its headers and its way out are built of.
pub record Sent : Type 0 where
  pub prompt : Text
  pub files : List FileRef
  pub model : ModelConfig
  pub temporary : Bool
  pub cookie : Text
  pub sapisid : Text
  pub at_token : Text
  pub authuser : ℕ
  pub proxy_url : Text
  pub timeout : ℕ

pub data Answer : Type 0 where
  net_error : Text → Answer
  http : ℕ → Text → Answer

-- The lines that were read, the cookies that were set, and the status with the body or the error.
pub record Reply : Type 0 where
  pub lines : List Text
  pub set_cookie : List Text
  pub answer : Answer

-- The outside of a request over a state `S`. `rotate` is rotateAccount on the rows of `accounts`, and
-- whether it gave no error. The law is the rotation's: it changes the account of no row.
pub record Upstream (S : Type 0) : Type 0 where
  pub clock : S → ℕ
  -- Whether the database answers the SELECT of a pick, and which rows of it can be scanned.
  pub pool_answers : S → Bool
  pub scans : S → CookieAccount → Bool
  pub get_xsrf : Text → Text → ℕ → S → Result Text × S
  pub invalidate_xsrf : Text → ℕ → S → S
  pub rotate : CookieAccount → List CookieAccount → S → Bool × List CookieAccount × S
  pub upload_bytes : Text → Text → ℕ → Text → Text → S → Result Text × S
  pub do_request : Sent → S → Reply × S
  -- What is relied on: the read of a row before its cookie is written is answered, and a rotation leaves
  -- every row of the account that its cookie was of.
  pub reads_row : S → Bool
  pub reads_row-true : (s : S) → reads_row s ≡ true
  pub rotate-identities :
      (a : CookieAccount) (rows : List CookieAccount) (s : S)
      → DistinctAccounts rows
      → let (alive, rows', s') = rotate a rows s in
        (identities rows' ≡ identities rows) × DistinctAccounts rows'

pub record World (S : Type 0) : Type 0 where
  pub accounts : List CookieAccount
  pub proxies : Pool
  pub slots : Slots
  pub outside : S
