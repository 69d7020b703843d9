-- ===== src/Hmac.antt =====
-- src/generic/hmac_streebog_generic.c and src/generic/pbkdf2_generic.c: the keyed hash over
-- Streebog, and the derivation of keys from passwords over it.
pub mod Parts
pub mod Pbkdf2
pub mod Rfc8018
mod Tests
use libpogost.Base.{
  ℕ, zero, suc, ◌+◌, ◌-◌, ◌*◌, bit_xor, Bool, not, ◌&&◌, ◌||◌, Option, none, some, List, [], ◌∷◌,
  ◌++◌, map, ltb, ◌==◌, if◌then◌else◌, length, take, replicate, u8, u32, ◌>>>◌, xor_bytes, Buffer,
  contents, is_missing,
}
use libpogost.Streebog.{State, init, update, final, streebog256, streebog512}

-- `if (a_len) streebog_update(&ctx, a, a_len);`
pub feed : State → List ℕ → State
feed st a = if ltb 0 (length a) then update st a else st

-- The key in a block of 64 bytes: a longer key is hashed.
pub key_block : ℕ → List ℕ → List ℕ
key_block bits key =
    let k =
      if ltb 64 (length key)
      then (if bits == 256 then streebog256 key else streebog512 key)
      else key in
    k ++ replicate (64 - length k) 0

abbrev pub xor_all : ℕ → List ℕ → List ℕ
xor_all c ks = map (λ k. bit_xor k c) ks

pub hmac_parts : ℕ → List ℕ → List ℕ → List ℕ → List ℕ → List ℕ
unfolding key_block feed
hmac_parts bits key a b c =
    let block = key_block bits key in
    let start = update (init bits) (xor_all 0x36 block) in
    let inner = final (feed (feed (feed start a) b) c) in
    let digest_len = if bits == 256 then 32 else 64 in
    final (update (update (init bits) (xor_all 0x5c block)) (take digest_len inner))

pub hmac_streebog256 : List ℕ → List ℕ → List ℕ
unfolding hmac_parts
hmac_streebog256 key input = hmac_parts 256 key input [] []

pub hmac_streebog512 : List ℕ → List ℕ → List ℕ
unfolding hmac_parts
hmac_streebog512 key input = hmac_parts 512 key input [] []

pub hmac_streebog256_parts : List ℕ → List ℕ → List ℕ → List ℕ → List ℕ
unfolding hmac_parts
hmac_streebog256_parts key a b c = hmac_parts 256 key a b c

pub hmac_streebog512_parts : List ℕ → List ℕ → List ℕ → List ℕ
unfolding hmac_parts
hmac_streebog512_parts key a b = hmac_parts 512 key a b []

-- `for (i = 1; i < iter; i++)` of `pbkdf2_streebog512`, with the rounds to go.
pub pbkdf2_rounds : ℕ → List ℕ → List ℕ → List ℕ → List ℕ
pbkdf2_rounds zero pass u t = t
pbkdf2_rounds (suc left) pass u t =
    let u' = hmac_streebog512 pass u in pbkdf2_rounds left pass u' (xor_bytes t u')

-- `be`
pub be32 : ℕ → List ℕ
be32 v = u8 (v >>> 24) ∷ u8 (v >>> 16) ∷ u8 (v >>> 8) ∷ u8 v ∷ []

-- `while (off < out_len)` with `left` bytes to go; each round writes at least one, so their
-- number is fuel enough.
pub pbkdf2_loop : ℕ → ℕ → ℕ → List ℕ → List ℕ → ℕ → List ℕ
unfolding pbkdf2_rounds be32
pbkdf2_loop zero left block pass salt iter = []
pbkdf2_loop (suc fuel) left block pass salt iter =
    let u = hmac_streebog512_parts pass salt (be32 block) in
    let t = pbkdf2_rounds (iter - 1) pass u u in
    let n = if ltb 64 left then 64 else left in
    let later = pbkdf2_loop fuel (left - n) (u32 (block + 1)) pass salt iter in
    if ltb 0 left then take n t ++ later else []

-- `none` is the result -1; `out` says that the pointer is not null.
pub pbkdf2_streebog512 : Bool → ℕ → Buffer → Buffer → ℕ → Option (List ℕ)
unfolding pbkdf2_loop
pbkdf2_streebog512 out out_len pass salt iter =
    if (not out && ltb 0 out_len) || (is_missing pass || (is_missing salt || (iter == 0)))
    then none
    else if ltb (0xffffffff * 64) out_len
    then none
    else some (pbkdf2_loop out_len out_len 1 (contents pass) (contents salt) iter)
