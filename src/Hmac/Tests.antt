-- ===== src/Hmac/Tests.antt =====
-- Instances of the theorems on a concrete key and message.
use mathlib.Core.Bool.{true}
use libpogost.Base.{some, bytes, arith, ℕ, ◌≡◌, List, [], ◌∷◌, length, replicate, refl, take}
use libpogost.Hmac.{hmac_parts, pbkdf2_streebog512}
use libpogost.Hmac.Pbkdf2.{pbkdf2_streebog512-total}
use libpogost.Hmac.Parts.{hmac_parts-append}
use libpogost.Hmac.Rfc8018.{derived, pbkdf2_streebog512_lem}

abbrev long_key : List ℕ
long_key = replicate 80 3

hmac_parts-append_example :
    hmac_parts 256 long_key (1 ∷ 2 ∷ []) [] (3 ∷ [])
    ≡ hmac_parts 256 long_key (1 ∷ 2 ∷ 3 ∷ []) [] []
hmac_parts-append_example = hmac_parts-append 256 long_key (1 ∷ 2 ∷ []) [] (3 ∷ [])

pbkdf2_streebog512-total_example :
    (okm : List ℕ) × (pbkdf2_streebog512 true 100 (bytes (1 ∷ [])) (bytes (2 ∷ 3 ∷ [])) 2
      ≡ some okm)
    × (length okm ≡ 100)
pbkdf2_streebog512-total_example =
    pbkdf2_streebog512-total 100 (bytes (1 ∷ [])) (bytes (2 ∷ 3 ∷ [])) 2 refl refl (omega arith)
      (omega arith)

pbkdf2_streebog512_lem_example :
    pbkdf2_streebog512 true 100 (bytes (1 ∷ [])) (bytes (2 ∷ 3 ∷ [])) 2
    ≡ some (take 100 (derived (1 ∷ []) (2 ∷ 3 ∷ []) 2 2 1))
pbkdf2_streebog512_lem_example =
    pbkdf2_streebog512_lem 100 2 (bytes (1 ∷ [])) (bytes (2 ∷ 3 ∷ [])) 2 refl refl (omega arith)
      (omega arith) (omega arith)
