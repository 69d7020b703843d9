-- ===== src/ChaCha20/Tests.antt =====
-- Tests of ChaCha20 and of the sealed messages, with inputs of RFC 8439.
use libpogost.Base.{
  xor_bytes, ℕ, ◌^◌, ◌<◌, ◌≡◌, refl, some, List, [], ◌∷◌, ◌++◌, arith, length, take, replicate,
  length-append, length-take,
}
use libpogost.ChaCha20.{block, chacha_crypt}
use libpogost.ChaCha20.Stream.{key_stream, chacha_crypt-chacha_crypt}
use libpogost.ChaCha20.Seek.{chacha_crypt-append}
use libpogost.ChaCha20.Aead.{
  Authenticator, chacha20poly1305_encrypt, chacha20poly1305_decrypt, xchacha20poly1305_encrypt,
  xchacha20poly1305_decrypt,
}
use libpogost.ChaCha20.Aead.Sealed.{
  chacha20poly1305_decrypt-encrypt, chacha20poly1305_encrypt-decrypt,
  length-chacha20poly1305_encrypt,
}

-- The state of section 2.3.2.
abbrev state : List ℕ
state =
    0x61707865 ∷ 0x3320646e ∷ 0x79622d32 ∷ 0x6b206574 ∷ 0x03020100 ∷ 0x07060504 ∷ 0x0b0a0908
    ∷ 0x0f0e0d0c ∷ 0x13121110 ∷ 0x17161514 ∷ 0x1b1a1918 ∷ 0x1f1e1d1c ∷ 1 ∷ 0x09000000 ∷ 0x4a000000
    ∷ 0 ∷ []

block_test : take 8 (block state 20).0 ≡ 0x10 ∷ 0xf1 ∷ 0xe7 ∷ 0xe4 ∷ 0xd1 ∷ 0x3b ∷ 0x59 ∷ 0x15 ∷ []
unfolding block
block_test = refl

abbrev message : List ℕ
message = replicate 64 0x4c ++ (0x61 ∷ 0x64 ∷ 0x69 ∷ [])

chacha_crypt-chacha_crypt_example :
    ((chacha_crypt state message 20).0 ≡ xor_bytes message (key_stream 2 state 20))
    × (length (key_stream 2 state 20) ≡ 128)
    × (length (chacha_crypt state message 20).0 ≡ 67)
    × (chacha_crypt state (chacha_crypt state message 20).0 20
        ≡ (message, (chacha_crypt state message 20).1))
chacha_crypt-chacha_crypt_example = chacha_crypt-chacha_crypt state message 20 2 refl (omega arith)

chacha_crypt-append_example : chacha_crypt state (replicate 64 7 ++ message) 20 ≡ (
  (chacha_crypt state (replicate 64 7) 20).0
      ++ (chacha_crypt (chacha_crypt state (replicate 64 7) 20).1 message 20).0,
  (chacha_crypt (chacha_crypt state (replicate 64 7) 20).1 message 20).1,
)
chacha_crypt-append_example = chacha_crypt-append 1 state (replicate 64 7) message 20 refl

-- The first 16 bytes of its input, as an authenticator to try the theorems on.
abbrev prefix : Authenticator
prefix = record {
  Context = List ℕ;
  init = λ key. [];
  update = λ c xs. c ++ xs;
  final = λ c. take 16 (c ++ replicate 16 0);
  length-final =
      λ c. omega (arith, length-take 16 (c ++ replicate 16 0), length-append c (replicate 16 0));
}

abbrev key : List ℕ
key = replicate 32 0x80

chacha20poly1305_decrypt-encrypt_example :
    (chacha20poly1305_decrypt prefix []
        (chacha20poly1305_encrypt prefix [] message (1 ∷ []) 7 key)
        (1 ∷ [])
        7
        key
      ≡ some message)
    × (xchacha20poly1305_decrypt prefix []
          (xchacha20poly1305_encrypt prefix [] message (1 ∷ []) (replicate 24 9) key)
          (1 ∷ [])
          (replicate 24 9)
          key
        ≡ some message)
chacha20poly1305_decrypt-encrypt_example =
    chacha20poly1305_decrypt-encrypt prefix [] [] message (1 ∷ []) key 7 (replicate 24 9)
      (omega arith)

-- A source that is accepted.
abbrev source : List ℕ
source = chacha20poly1305_encrypt prefix [] message (1 ∷ []) 7 key

abbrev xsource : List ℕ
xsource = xchacha20poly1305_encrypt prefix [] message (1 ∷ []) (replicate 24 9) key

sources_fit : (length source < 2 ^ 32) × (length xsource < 2 ^ 32)
sources_fit =
    let l =
      length-chacha20poly1305_encrypt prefix [] message (1 ∷ []) key 7 (replicate 24 9)
        (omega arith) in
    (omega (arith, l.0), omega (arith, l.1))

chacha20poly1305_encrypt-decrypt_example :
    chacha20poly1305_encrypt prefix [] message (1 ∷ []) 7 key ≡ source
chacha20poly1305_encrypt-decrypt_example =
    chacha20poly1305_encrypt-decrypt prefix [] [] source (1 ∷ []) key message 7 sources_fit.0
      chacha20poly1305_decrypt-encrypt_example.0
