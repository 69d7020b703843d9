-- ===== src/KuznyechikModes/Mgm/Tests.antt =====
-- Tests of MGM over a block cipher that adds a byte of the key.
use libpogost.Base.{
  ℕ, ◌+◌, ◌≡◌, refl, ◌∙◌, ◌≢◌, some, List, [], ◌∷◌, ◌++◌, map, arith, length, replicate, length-map,
  Below-replicate, u8, byte_at,
}
use libpogost.Kdf.Encoding.{read_be}
use libpogost.KuznyechikModes.{BlockCipher}
use libpogost.KuznyechikModes.Mgm.{gf128_mul, make_nonce, mgm_encrypt, mgm_decrypt}
use libpogost.KuznyechikModes.Mgm.Field.{times, gf128_mul-times}
use libpogost.KuznyechikModes.Mgm.Nonce.{make_nonce_apart}
use libpogost.KuznyechikModes.Mgm.Sealed.{mgm_decrypt-mgm_encrypt, mgm_encrypt-mgm_decrypt}

abbrev adding : BlockCipher
adding = record {
  Ctx = List ℕ;
  setkey = λ key. key;
  encrypt = λ ctx b. map (λ x. u8 (x + byte_at ctx 0)) b;
  length-encrypt = λ ctx b h. length-map b _ ∙ h;
}

-- x * x ^ 127
gf128_mul_test :
    gf128_mul (replicate 15 0 ++ (2 ∷ [])) (0x80 ∷ replicate 15 0) ≡ replicate 15 0 ++ (0x87 ∷ [])
unfolding gf128_mul libpogost.Kdf.put_be64
gf128_mul_test = refl

make_nonce_test :
    make_nonce (replicate 16 0xff) 258 ≡ 0x7f ∷ replicate 13 0xff ++ (0xfe ∷ 0xfd ∷ [])
unfolding make_nonce
make_nonce_test = refl

abbrev nonce : List ℕ
nonce = replicate 16 0x33

abbrev key : List ℕ
key = replicate 32 0x5a

abbrev aad : List ℕ
aad = replicate 20 7

abbrev text : List ℕ
text = replicate 37 0x42

gf128_mul-times_example :
    read_be 0 (gf128_mul nonce (replicate 16 0x91))
    ≡ times 128 (read_be 0 nonce) (read_be 0 (replicate 16 0x91))
gf128_mul-times_example =
    gf128_mul-times nonce (replicate 16 0x91) refl refl (Below-replicate 256 16 0x33 (omega arith))
      (Below-replicate 256 16 0x91 (omega arith))

make_nonce_apart_example : make_nonce nonce 258 ≢ make_nonce nonce 259
make_nonce_apart_example =
    make_nonce_apart nonce 258 259 refl (omega arith) (omega arith) (omega arith)

mgm_decrypt-mgm_encrypt_example :
    let sealed = mgm_encrypt adding key nonce aad text in
    (length sealed.0 ≡ 37)
    × (length sealed.1 ≡ 16)
    × (mgm_decrypt adding key nonce aad sealed.0 sealed.1 ≡ some text)
mgm_decrypt-mgm_encrypt_example = mgm_decrypt-mgm_encrypt adding key nonce aad text refl

mgm_encrypt-mgm_decrypt_example :
    mgm_encrypt adding key nonce aad text ≡ mgm_encrypt adding key nonce aad text
mgm_encrypt-mgm_decrypt_example =
    mgm_encrypt-mgm_decrypt adding key nonce aad (mgm_encrypt adding key nonce aad text).0
      (mgm_encrypt adding key nonce aad text).1 text refl
      (mgm_decrypt-mgm_encrypt adding key nonce aad text refl).1
      (mgm_decrypt-mgm_encrypt adding key nonce aad text refl).2
