-- ===== src/ChaCha20/Aead.antt =====
-- src/generic/chacha20poly1305_generic.c: sealed messages over the stream cipher. Poly1305 is
-- the interface Authenticator, with the three functions of include/libpogost/poly1305.h.
pub mod Sealed
use libpogost.Base.{
  ℕ, ◌-◌, bit_and, ◌≡◌, Option, none, some, List, [], ◌∷◌, ◌++◌, ltb, if◌then◌else◌, length, take,
  drop, replicate, blit, u32, ◌>>>◌, get_le32, put_le32, memeq,
}
use libpogost.ChaCha20.{chacha_crypt, chacha_init, hchacha_block}

pub record Authenticator : Type 1 where
  pub Context : Type 0
  pub init : List ℕ → Context
  pub update : Context → List ℕ → Context
  pub final : Context → List ℕ
  pub length-final : (c : Context) → length (final c) ≡ 16

-- The bytes that a callee reads whose length parameter is an `unsigned int`.
pub narrow : List ℕ → List ℕ
narrow xs = take (u32 (length xs)) xs

-- `cpu_to_le64`
le64 : ℕ → List ℕ
unfolding put_le32
le64 v = put_le32 (u32 v) ++ put_le32 (u32 (v >>> 32))

-- `chacha20_crypt` into the buffer `dst`.
pub crypt_into : List ℕ → List ℕ → List ℕ → List ℕ × List ℕ
unfolding narrow chacha_crypt
crypt_into st dst src = let r = chacha_crypt st (narrow src) 20 in (blit dst 0 r.0, r.1)

module _ (A : Authenticator) where
  -- An update, then the zeros up to a multiple of 16 bytes.
  pub padded : A.Context → List ℕ → A.Context
  unfolding narrow
  padded c text =
      let c' = A.update c (narrow text) in
      let over = bit_and (length text) 0xf in
      if ltb 0 over then A.update c' (replicate (0x10 - over) 0) else c'

  pub tag : List ℕ → List ℕ → List ℕ → List ℕ
  unfolding padded le64
  tag block0 ad text =
      A.final (
        A.update (padded (padded (A.init block0) ad) text) (le64 (length ad) ++ le64 (length text)))

  -- `__chacha20poly1305_encrypt`: the message and the tag behind it.
  pub seal : List ℕ → List ℕ → List ℕ → List ℕ → List ℕ
  unfolding crypt_into tag
  seal dst src ad st =
      let key = crypt_into st (replicate 32 0) (replicate 32 0) in
      let out = take (length src) (crypt_into key.1 dst src).0 in out ++ tag key.0 ad out

  -- `__chacha20poly1305_decrypt`, which returns false for `none`.
  pub unseal : List ℕ → List ℕ → List ℕ → List ℕ → Option (List ℕ)
  unfolding crypt_into tag memeq
  unseal dst src ad st =
      let key = crypt_into st (replicate 32 0) (replicate 32 0) in
      let dst_len = length src - 16 in
      let mac = tag key.0 ad (take dst_len src) in
      if ltb (length src) 16
      then none
      else (if memeq mac (drop dst_len src)
          then some (take dst_len (crypt_into key.1 dst (take dst_len src)).0)
          else none)

-- `chacha_load_key`
pub load_key : List ℕ → List ℕ
unfolding get_le32
load_key in_ =
    get_le32 in_
    ∷ get_le32 (drop 4 in_)
    ∷ get_le32 (drop 8 in_)
    ∷ get_le32 (drop 12 in_)
    ∷ get_le32 (drop 16 in_)
    ∷ get_le32 (drop 20 in_)
    ∷ get_le32 (drop 24 in_)
    ∷ get_le32 (drop 28 in_)
    ∷ []

-- The state that the entry points start from, with a nonce of 64 bits and of 24 bytes.
pub start_state : List ℕ → ℕ → List ℕ
unfolding load_key le64 chacha_init
start_state key nonce = chacha_init (load_key key) (le64 0 ++ le64 nonce)

pub xchacha_init : List ℕ → List ℕ → List ℕ
unfolding load_key chacha_init hchacha_block
xchacha_init key nonce =
    chacha_init (hchacha_block (chacha_init (load_key key) nonce) 20)
      (replicate 8 0 ++ take 8 (drop 16 nonce))

module _ (A : Authenticator) where
  pub chacha20poly1305_encrypt : List ℕ → List ℕ → List ℕ → ℕ → List ℕ → List ℕ
  unfolding seal start_state
  chacha20poly1305_encrypt dst src ad nonce key = seal A dst src ad (start_state key nonce)

  pub xchacha20poly1305_encrypt : List ℕ → List ℕ → List ℕ → List ℕ → List ℕ → List ℕ
  unfolding seal xchacha_init
  xchacha20poly1305_encrypt dst src ad nonce key = seal A dst src ad (xchacha_init key nonce)

  pub chacha20poly1305_decrypt : List ℕ → List ℕ → List ℕ → ℕ → List ℕ → Option (List ℕ)
  unfolding unseal start_state
  chacha20poly1305_decrypt dst src ad nonce key = unseal A dst src ad (start_state key nonce)

  pub xchacha20poly1305_decrypt : List ℕ → List ℕ → List ℕ → List ℕ → List ℕ → Option (List ℕ)
  unfolding unseal xchacha_init
  xchacha20poly1305_decrypt dst src ad nonce key = unseal A dst src ad (xchacha_init key nonce)
