-- ===== src/Pfx/Tests.antt =====
-- Instances of the theorems on containers.
use libpogost.Base.{
  ℕ, ◌≡◌, refl, inl, true, none, some, List, [], ◌∷◌, arith, length, replicate, Below-replicate,
  Buffer, null, bytes,
}
use libpogost.Keybag.{kdf, wrap}
use libpogost.Pfx.{rc2_40_pbe_encrypt, rc2_40_pbe_decrypt}
use libpogost.Pfx.Derive.{Accepts}
use libpogost.Pfx.Pbe.{rc2_40_pbe_decrypt-rc2_40_pbe_encrypt}
use libpogost.Pfx.Gost.{cp80_wrap, cp80_encrypt, cp80_decrypt}
use libpogost.Pfx.Gost.RoundTrip.{cp80_decrypt-cp80_encrypt, wrap-cp80_wrap}

-- "1" in UTF-16BE with its ending zeros, and in UTF-16LE.
abbrev password_be : Buffer
password_be = bytes (0 ∷ 0x31 ∷ 0 ∷ 0 ∷ [])

abbrev password_le : Buffer
password_le = bytes (0x31 ∷ 0 ∷ [])

abbrev test_salt : List ℕ
test_salt = 1 ∷ 2 ∷ 3 ∷ 4 ∷ 5 ∷ 6 ∷ 7 ∷ 8 ∷ []

abbrev test_text : List ℕ
test_text = replicate 13 0x41

test-Accepts : Accepts password_be test_salt 2000
unfolding libpogost.Pfx.whole_blocks
test-Accepts = record {
  some_pass = refl;
  some_salt = omega arith;
  some_rounds = omega arith;
  fits = omega arith;
}

rc2_40_pbe_decrypt-rc2_40_pbe_encrypt_example :
    (sealed : List ℕ) × (rc2_40_pbe_encrypt true 16
        (bytes test_text)
        password_be
        (bytes test_salt)
        2000
      ≡ some sealed)
    × (length sealed ≡ 16)
    × (rc2_40_pbe_decrypt true 16 (bytes sealed) password_be (bytes test_salt) 2000
        ≡ some test_text)
rc2_40_pbe_decrypt-rc2_40_pbe_encrypt_example =
    rc2_40_pbe_decrypt-rc2_40_pbe_encrypt password_be test_salt test_text 2000 16 16 test-Accepts
      (Below-replicate 256 13 0x41 (omega arith)) (omega arith) (omega arith)

wrap-cp80_wrap_example :
    (key : List ℕ) × (secret : List ℕ) × (mac : List ℕ) × (kdf true password_le
        (bytes test_salt)
        2000
      ≡ some key)
    × (cp80_wrap true true
          (bytes (replicate 32 7))
          password_le
          (bytes test_salt)
          2000
          (some test_salt)
        ≡ some (secret, mac))
    × (length secret ≡ 32)
    × (length mac ≡ 4)
    × (wrap true true (bytes secret) (some key) (bytes test_salt) 0 ≡ some (replicate 32 7, mac))
wrap-cp80_wrap_example =
    wrap-cp80_wrap password_le test_salt 2000 (replicate 32 7) test_salt refl (omega arith)
      (omega arith) (omega arith) (inl refl) (Below-replicate 256 32 7 (omega arith)) refl

cp80_decrypt-cp80_encrypt_example :
    (secret : List ℕ) × (cp80_encrypt true (bytes test_text) (null 0) (bytes test_salt) 2000
      ≡ some secret)
    × (length secret ≡ 13)
    × (cp80_decrypt true (bytes secret) (null 0) (bytes test_salt) 2000 ≡ none)
cp80_decrypt-cp80_encrypt_example =
    cp80_decrypt-cp80_encrypt (null 0) test_salt test_text 2000 refl (omega arith) (omega arith)
      (omega arith)
