-- ===== src/Request/Kept.antt =====
-- What a request leaves of the world: the slots as they were, and every row with its account.
use gemini_web2api_go_browse.Prelude.{◌≡◌, refl, ◌∙◌, List}
use gemini_web2api_go_browse.CookiePool.{CookieAccount}
use gemini_web2api_go_browse.CookiePool.Identity.{identities}
use gemini_web2api_go_browse.Request.{World}

pub record Kept {S : Type 0} (before after : World S) : Type 0 where
  pub slots : after.slots ≡ before.slots
  pub accounts : identities after.accounts ≡ identities before.accounts

pub Kept-refl : {S : Type 0} (w : World S) → Kept w w
Kept-refl w = record { slots = refl; accounts = refl }

-- A change of the rows that keeps their accounts, and of what is neither rows nor slots.
pub Kept-rows :
    {S : Type 0} (before after : World S) (rows : List CookieAccount)
    → Kept before after
    → identities rows ≡ identities after.accounts
    → Kept before (record after { accounts = rows })
Kept-rows before after rows k e = record { slots = k.slots; accounts = e ∙ k.accounts }
