-- ===== src/Gost341194/Tests.antt =====
-- The vector of tests/test_gost3411_94.c and instances of the theorems.
use libpogost.Base.{◌≡◌, refl, [], ◌∷◌, ◌++◌, replicate, get_le32, put_le32, absorb}
use libpogost.Gost28147.{setkey_raw, encrypt_raw}
use libpogost.Gost341194.{gost3411_94_cryptopro_parts, gost3411_94_cryptopro}
use libpogost.Gost341194.Update.{gost3411_94_cryptopro-append}

vector :
    gost3411_94_cryptopro (replicate 64 0xff)
    ≡ 0x58 ∷ 0x50 ∷ 0x4d ∷ 0x26 ∷ 0xb3 ∷ 0x67 ∷ 0x7e ∷ 0x75 ∷ 0x6b ∷ 0xa3 ∷ 0xf4 ∷ 0xa9 ∷ 0xfd
      ∷ 0x2f ∷ 0x14 ∷ 0xb3 ∷ 0xba ∷ 0x54 ∷ 0x57 ∷ 0x06 ∷ 0x6a ∷ 0x4a ∷ 0xa1 ∷ 0xd7 ∷ 0x00 ∷ 0x65
      ∷ 0x9b ∷ 0x90 ∷ 0xdc ∷ 0xdd ∷ 0xd3 ∷ 0xc6 ∷ []
unfolding gost3411_94_cryptopro encrypt_raw setkey_raw get_le32 put_le32 absorb
vector = refl

gost3411_94_cryptopro-append_example :
    gost3411_94_cryptopro_parts (replicate 40 1) [] (2 ∷ 3 ∷ [])
    ≡ gost3411_94_cryptopro (replicate 40 1 ++ ([] ++ (2 ∷ 3 ∷ [])))
gost3411_94_cryptopro-append_example = gost3411_94_cryptopro-append (replicate 40 1) [] (2 ∷ 3 ∷ [])
