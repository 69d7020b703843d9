-- ===== src/Gost28147/Tests.antt =====
-- The vectors of tests/test_gost28147.c and instances of the theorems.
use libpogost.Base.{
  ℕ, ◌≡◌, refl, true, false, some, List, [], ◌∷◌, arith, length, get_le32, put_le32, bytes,
}
use libpogost.Gost28147.Context.{setkey_cryptopro_a, encrypt, decrypt}
use libpogost.Gost28147.{State, setkey_raw, encrypt_raw, decrypt_raw}
use libpogost.Gost28147.Sbox.{sbox_cryptopro_a, sbox_tc26_z}
use libpogost.Gost28147.Feistel.{decrypt_raw-encrypt_raw}
use libpogost.Gost28147.Modes.{cfb_crypt}
use libpogost.Gost28147.Modes.Feedback.{cfb_crypt-round_trip}

abbrev test_key : List ℕ
test_key =
    0xbb ∷ 0xf1 ∷ 0xed ∷ 0xd3 ∷ 0x20 ∷ 0xaf ∷ 0x8a ∷ 0x62 ∷ 0x8e ∷ 0x11 ∷ 0xc8 ∷ 0xa9 ∷ 0x51 ∷ 0xcc
    ∷ 0xbe ∷ 0x81 ∷ 0x47 ∷ 0x7b ∷ 0x41 ∷ 0xa1 ∷ 0x6a ∷ 0xf6 ∷ 0x7f ∷ 0x05 ∷ 0xe8 ∷ 0x51 ∷ 0x2f
    ∷ 0x9e ∷ 0x01 ∷ 0xf8 ∷ 0xcf ∷ 0x49 ∷ []

abbrev test_plain : List ℕ
test_plain = 0x74 ∷ 0x3d ∷ 0x76 ∷ 0xf9 ∷ 0x1b ∷ 0xee ∷ 0x35 ∷ 0x3c ∷ []

vector :
    encrypt_raw (setkey_raw test_key sbox_cryptopro_a) test_plain
    ≡ 0xc3 ∷ 0x73 ∷ 0x90 ∷ 0x95 ∷ 0x35 ∷ 0x58 ∷ 0x08 ∷ 0x63 ∷ []
unfolding encrypt_raw setkey_raw get_le32 put_le32
vector = refl

context_test : setkey_cryptopro_a true (some test_key) ≡ some (setkey_raw test_key sbox_cryptopro_a)
unfolding setkey_cryptopro_a setkey_raw
context_test = refl

context_vector :
    decrypt
      (setkey_raw test_key sbox_cryptopro_a)
      (encrypt (setkey_raw test_key sbox_cryptopro_a) test_plain)
    ≡ test_plain
unfolding decrypt encrypt decrypt_raw encrypt_raw setkey_raw get_le32 put_le32
context_vector = refl

decrypt_raw-encrypt_raw_example :
    decrypt_raw
      (setkey_raw test_key sbox_cryptopro_a)
      (encrypt_raw (setkey_raw test_key sbox_cryptopro_a) test_plain)
    ≡ test_plain
decrypt_raw-encrypt_raw_example =
    decrypt_raw-encrypt_raw (setkey_raw test_key sbox_cryptopro_a) test_plain (refl, omega arith)

cfb_crypt-round_trip_example :
    (st' : State) × (secret : List ℕ) × (cfb_crypt
        (some (setkey_raw test_key sbox_tc26_z))
        true
        (bytes (1 ∷ 2 ∷ 3 ∷ test_plain))
        (some test_plain)
        true
        true
      ≡ some (st', secret))
    × (length secret ≡ length (1 ∷ 2 ∷ 3 ∷ test_plain))
    × (cfb_crypt
          (some (setkey_raw test_key sbox_tc26_z))
          true
          (bytes secret)
          (some test_plain)
          false
          true
        ≡ some (st', 1 ∷ 2 ∷ 3 ∷ test_plain))
cfb_crypt-round_trip_example =
    cfb_crypt-round_trip true (setkey_raw test_key sbox_tc26_z) test_plain (1 ∷ 2 ∷ 3 ∷ test_plain)
