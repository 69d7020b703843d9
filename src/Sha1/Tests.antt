-- ===== src/Sha1/Tests.antt =====
-- The digest of "abc" from FIPS 180-4 and an instance of the theorem.
use libpogost.Base.{◌≡◌, refl, [], ◌∷◌, replicate}
use libpogost.Sha1.{init, update, final}
use libpogost.Sha1.Digest.{reference, final-update}

vector :
    final (update init (0x61 ∷ 0x62 ∷ 0x63 ∷ []))
    ≡ 0xa9 ∷ 0x99 ∷ 0x3e ∷ 0x36 ∷ 0x47 ∷ 0x06 ∷ 0x81 ∷ 0x6a ∷ 0xba ∷ 0x3e ∷ 0x25 ∷ 0x71 ∷ 0x78
      ∷ 0x50 ∷ 0xc2 ∷ 0x6c ∷ 0x9c ∷ 0xd0 ∷ 0xd8 ∷ 0x9d ∷ []
unfolding init update final
vector = refl

final-update_example : final (update init (replicate 70 1)) ≡ reference (replicate 70 1)
final-update_example = final-update (replicate 70 1)
