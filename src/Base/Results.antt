-- ===== src/Base/Results.antt =====
-- Functions that return 0 or -1: a call whose result -1 the caller passes on.
use mathlib.Core.Option.{Option, none, some}

infixl 5 ◌>>=◌
abbrev pub ◌>>=◌ {ℓ ℓ'} : {A : Type ℓ} {B : Type ℓ'} → Option A → (A → Option B) → Option B
none >>= k = none
some x >>= k = k x
