-- ===== src/Prelude/Integers.antt =====
-- The integers over the native numbers, under the library's names: `negsuc n` is -(n + 1).
use Prim.Native.Nat.{ℕ, ◌≤◌}
use mathlib.Core.Path.{◌≡◌, refl}
use mathlib.Core.Bool.{Bool, true, false}
use native.Mathlib.Omega.{arith}
use gemini_web2api_go_browse.Prelude.Tests.{ltb}

pub data ℤ : Type 0 where
  pos : ℕ → ℤ
  negsuc : ℕ → ℤ

-- The tests of an integer against a bound that is not negative.
abbrev pub below : ℤ → ℕ → Bool
below (pos n) k = ltb n k
below (negsuc n) k = true

abbrev pub above : ℤ → ℕ → Bool
above (pos n) k = ltb k n
above (negsuc n) k = false

-- A loop or a limit that counts up to an integer counts none when it is negative.
abbrev pub amount : ℤ → ℕ
amount (pos n) = n
amount (negsuc n) = 0

pub record Between (low high : ℕ) (z : ℤ) : Type 0 where
  pub whole : z ≡ pos (amount z)
  pub least : low ≤ amount z
  pub most : amount z ≤ high

pub within :
    (z : ℤ) (low high : ℕ) → below z low ≡ false → above z high ≡ false → Between low high z
within (pos n) low high b a = record { whole = refl; least = ground arith; most = ground arith }
within (negsuc n) low high b a = cc
