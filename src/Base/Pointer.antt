-- ===== src/Base/Pointer.antt =====
-- A pointer argument with the length that goes with it. The public functions test such a pair
-- for a null pointer before they read it.
use Prim.Native.Nat.{ℕ}
use mathlib.Core.Bool.{Bool, true, false, ◌&&◌}
use mathlib.Core.List.{List, []}
use libpogost.Base.Tests.{ltb}
use libpogost.Base.Lists.{length}

-- `null n` is a null pointer passed with length `n`; `bytes xs` points to all of `xs`.
pub data Buffer : Type 0 where
  null : ℕ → Buffer
  bytes : List ℕ → Buffer

abbrev pub is_null : Buffer → Bool
is_null (null n) = true
is_null (bytes xs) = false

abbrev pub len : Buffer → ℕ
len (null n) = n
len (bytes xs) = length xs

abbrev pub contents : Buffer → List ℕ
contents (null n) = []
contents (bytes xs) = xs

-- `!p && len`
abbrev pub is_missing : Buffer → Bool
is_missing b = is_null b && ltb 0 (len b)
