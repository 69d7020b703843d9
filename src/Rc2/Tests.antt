-- ===== src/Rc2/Tests.antt =====
-- Instances of the theorems on concrete keys and blocks.
use libpogost.Base.{ℕ, ◌≡◌, refl, List, [], ◌∷◌, ◌++◌, arith, length, replicate, Below}
use libpogost.Rc2.{set_key, encrypt_block, decrypt_block, cbc_encrypt, cbc_decrypt}
use libpogost.Rc2.Block.{decrypt_block-encrypt_block}
use libpogost.Rc2.Chain.{cbc_decrypt-cbc_encrypt}

abbrev test_block : List ℕ
test_block = 0x10 ∷ 0x20 ∷ 0x30 ∷ 0x40 ∷ 0x50 ∷ 0x60 ∷ 0x70 ∷ 0xff ∷ []

-- A vector of RFC 2268: 63 bits of a key of eight zero bytes.
rfc_vector :
    encrypt_block (set_key (replicate 8 0) 63) (replicate 8 0)
    ≡ 0xeb ∷ 0xb7 ∷ 0x73 ∷ 0xf9 ∷ 0x93 ∷ 0x27 ∷ 0x8e ∷ 0xff ∷ []
unfolding encrypt_block set_key
rfc_vector = refl

decrypt_block-encrypt_block_example :
    decrypt_block (set_key (1 ∷ 2 ∷ []) 40) (encrypt_block (set_key (1 ∷ 2 ∷ []) 40) test_block)
    ≡ test_block
decrypt_block-encrypt_block_example =
    decrypt_block-encrypt_block (set_key (1 ∷ 2 ∷ []) 40) test_block (refl, omega arith)

cbc_decrypt-cbc_encrypt_example :
    let (iv', ct) = cbc_encrypt (set_key (1 ∷ 2 ∷ []) 40) test_block (test_block ++ test_block) in
    (length ct ≡ 16)
    × Below 256 ct
    × (cbc_decrypt (set_key (1 ∷ 2 ∷ []) 40) test_block ct ≡ (iv', test_block ++ test_block))
cbc_decrypt-cbc_encrypt_example =
    cbc_decrypt-cbc_encrypt (set_key (1 ∷ 2 ∷ []) 40) test_block (test_block ++ test_block) 2 refl
      (omega arith) (refl, omega arith)
