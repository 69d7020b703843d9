-- ===== src/Pfx.antt =====
-- src/generic/pfx_generic.c: the parts of PKCS 12 containers over SHA-1 and RC2. `none` is the
-- result -1. `out` says that the pointers for the results are not null.
pub mod Pad
pub mod Derive
pub mod Pbe
pub mod Gost
mod Tests
use libpogost.Base.{
  ◌>>=◌, ℕ, zero, suc, ◌+◌, ◌-◌, ◌*◌, ◌/◌, ◌%◌, bit_xor, Bool, true, not, ◌&&◌, ◌||◌, Option, none,
  some, List, [], ◌∷◌, ◌++◌, ltb, ◌==◌, if◌then◌else◌, length, take, drop, replicate, byte_at,
  Buffer, is_null, len, contents, is_missing,
}
use libpogost.Sha1.{State, init, update, final}
use libpogost.Rc2.{set_key, cbc_encrypt, cbc_decrypt}

-- `pad[i] ^= key[i]` for `i < key_len && i < sizeof(pad)`, with the bytes of `pad` to go.
pad_key : ℕ → ℕ → List ℕ → List ℕ
pad_key zero byte key = []
pad_key (suc left) byte [] = byte ∷ pad_key left byte []
pad_key (suc left) byte (k ∷ key) = bit_xor byte k ∷ pad_key left byte key

sha1_hmac : List ℕ → List ℕ → List ℕ
unfolding pad_key
sha1_hmac key text =
    let inner = final (update (update init (pad_key 64 0x36 key)) text) in
    final (update (update init (pad_key 64 0x5c key)) inner)

-- `input[i] = xs[i % len]` for the `left` bytes to go.
repeated : ℕ → ℕ → List ℕ → List ℕ
repeated zero i xs = []
repeated (suc left) i xs = byte_at xs (i % length xs) ∷ repeated left (i + 1) xs

-- `for (round = 1; round < iter; round++)`, with the rounds to go.
pub derive_rounds : ℕ → List ℕ → List ℕ
derive_rounds zero a = a
derive_rounds (suc left) a = derive_rounds left (final (update init a))

-- `pass_len ? ((pass_len + 63) / 64) * 64 : 0`
pub whole_blocks : ℕ → ℕ
whole_blocks n = if n == 0 then 0 else (n + 63) / 64 * 64

-- The bytes that `pkcs12_sha1_derive` derives from, and what it makes of them.
pub derive_from : ℕ → List ℕ → List ℕ → ℕ → List ℕ
unfolding repeated derive_rounds whole_blocks
derive_from id pass salt iter =
    let input =
      repeated (whole_blocks (length salt)) 0 salt
      ++ repeated (whole_blocks (length pass)) 0 pass in
    derive_rounds (iter - 1) (final (update (update init (replicate 64 id)) input))

pub pkcs12_sha1_derive : ℕ → ℕ → Buffer → Buffer → ℕ → Option (List ℕ)
pkcs12_sha1_derive out_len id pass salt iter =
    if is_missing pass || (is_null salt || (iter == 0 || len salt == 0))
    then none
    else if ltb 4096 (len salt)
        || (ltb 4096 (len pass) || (ltb 4096 (len pass + len salt) || ltb 20 out_len))
    then none
    else if ltb 4096 (whole_blocks (len salt) + whole_blocks (len pass))
    then none
    else some (take out_len (derive_from id (contents pass) (contents salt) iter))

sha1_mac : Bool → Buffer → Buffer → Buffer → ℕ → Option (List ℕ)
sha1_mac out text pass salt iter =
    if not out || (is_missing text || (is_missing pass || is_null salt))
    then none
    else do key ← pkcs12_sha1_derive 20 3 pass salt iter; some (sha1_hmac key (contents text))

-- The whole blocks of `in`, then the rest of it with `pad_len` bytes `pad_len`.
pub pbe_blocks : List ℕ → List ℕ → List ℕ → List ℕ
pbe_blocks ks iv text =
    let full = length text / 8 * 8 in
    let pad_len = 8 - length text % 8 in
    let first = if ltb 0 (length text / 8) then cbc_encrypt ks iv (take full text) else (iv, []) in
    first.1 ++ (cbc_encrypt ks first.0 (drop full text ++ replicate pad_len pad_len)).1

-- `cap` is `*out_len` before the call; afterwards it is the length of the result.
pub rc2_40_pbe_encrypt : Bool → ℕ → Buffer → Buffer → Buffer → ℕ → Option (List ℕ)
rc2_40_pbe_encrypt out cap in_ pass salt iter =
    let total_len = len in_ + (8 - len in_ % 8) in
    if not out
      || (is_missing in_ || (is_missing pass || (is_null salt || (len salt == 0 || iter == 0))))
    then none
    else if ltb cap total_len
    then none
    else do
      key ← pkcs12_sha1_derive 5 1 pass salt iter
      iv ← pkcs12_sha1_derive 8 2 pass salt iter
      some (pbe_blocks (set_key key 40) iv (contents in_))

-- `for (i = 0; i < pad_val; i++)` over the end of `out`, with `left` bytes to go.
pub pads_ok : ℕ → ℕ → ℕ → List ℕ → Bool
pads_ok zero i pad_val out = true
pads_ok (suc left) i pad_val out =
    (byte_at out (length out - 1 - i) == pad_val) && pads_ok left (i + 1) pad_val out

pub unpad : List ℕ → Option (List ℕ)
unfolding pads_ok
unpad out =
    let pad_val = byte_at out (length out - 1) in
    if ltb pad_val 1 || (ltb 8 pad_val || ltb (length out) pad_val)
    then none
    else if pads_ok pad_val 0 pad_val out
    then some (take (length out - pad_val) out)
    else none

pub rc2_40_pbe_decrypt : Bool → ℕ → Buffer → Buffer → Buffer → ℕ → Option (List ℕ)
rc2_40_pbe_decrypt out cap in_ pass salt iter =
    if not out || (is_null in_ || (len in_ == 0 || not (len in_ % 8 == 0)))
    then none
    else if is_missing pass || (is_null salt || (len salt == 0 || iter == 0))
    then none
    else if ltb cap (len in_)
    then none
    else do
      key ← pkcs12_sha1_derive 5 1 pass salt iter
      iv ← pkcs12_sha1_derive 8 2 pass salt iter
      unpad (cbc_decrypt (set_key key 40) iv (contents in_)).1
