-- ===== src/Keybag/Tests.antt =====
-- Instances of the theorems on key bags.
use libpogost.Base.{
  ℕ, ◌≡◌, refl, inr, true, some, List, arith, length, replicate, Below-replicate, bytes,
}
use libpogost.Keybag.{wrap}
use libpogost.Keybag.Wrap.{wrap-wrap}

wrap-wrap_example :
    (secret : List ℕ) × (mac : List ℕ) × (wrap true true
        (bytes (replicate 64 7))
        (some (replicate 32 9))
        (bytes (replicate 8 1))
        1
      ≡ some (secret, mac))
    × (length secret ≡ 64)
    × (length mac ≡ 4)
    × (wrap true true (bytes secret) (some (replicate 32 9)) (bytes (replicate 8 1)) 0
        ≡ some (replicate 64 7, mac))
wrap-wrap_example =
    wrap-wrap (replicate 64 7) (replicate 32 9) (replicate 8 1) (inr refl)
      (Below-replicate 256 64 7 (omega arith)) refl
