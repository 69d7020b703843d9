-- ===== src/Keybag.antt =====
-- src/generic/cryptopro_keybag_generic.c: key bags of CryptoPro containers. `none` is the result
-- -1; `out` and `mac` say that the pointers for the results are not null.
pub mod Wrap
pub mod Blob
mod Tests
use libpogost.Base.{
  ◌>>=◌, ℕ, zero, suc, ◌+◌, ◌/◌, Bool, true, false, not, ◌&&◌, ◌||◌, Option, none, some, List, [],
  ◌∷◌, ◌++◌, ltb, ◌==◌, if◌then◌else◌, length, take, drop, u8, ◌>>>◌, Buffer, bytes, is_null, len,
  contents, is_missing,
}
use libpogost.Gost341194.{gost3411_94_cryptopro_parts}
use libpogost.Gost28147.{State, setkey_raw, encrypt_raw, decrypt_raw}
use libpogost.Gost28147.Sbox.{sbox_cryptopro_a}
use libpogost.Gost28147.Modes.{cfb_crypt, mac4_raw}
use libpogost.Kdf.{kdf_tree_256}

-- `for (i = 1; i <= iter; i++)` at round `i`, with the rounds to go and `cur` so far.
pub kdf_rounds : ℕ → ℕ → List ℕ → List ℕ → List ℕ
kdf_rounds zero i cur salt = cur
kdf_rounds (suc left) i cur salt =
    kdf_rounds left (i + 1) (gost3411_94_cryptopro_parts cur salt (u8 (i >>> 8) ∷ u8 i ∷ [])) salt

pub kdf : Bool → Buffer → Buffer → ℕ → Option (List ℕ)
kdf out pass salt iter =
    if not out
      || (is_missing pass
          || (is_null salt || (ltb (len salt) 8 || ((iter == 0) || ltb 1000000 iter))))
    then none
    else some (kdf_rounds iter 1 (contents pass) (contents salt))

-- `for (off = 0; off < len; off += 8)` with the blocks to go.
pub crypt_blocks : State → Bool → ℕ → List ℕ → List ℕ
crypt_blocks st enc zero rest = []
crypt_blocks st enc (suc left) rest =
    (if enc then encrypt_raw st (take 8 rest) else decrypt_raw st (take 8 rest))
    ++ crypt_blocks st enc left (drop 8 rest)

abbrev label : List ℕ
label = 0x26 ∷ 0xbd ∷ 0xb8 ∷ 0x78 ∷ []

-- What follows the derivation of `ke`.
pub wrap_with : List ℕ → List ℕ → List ℕ → ℕ → Option (List ℕ × List ℕ)
wrap_with ke in_ ukm enc =
    let st = setkey_raw ke sbox_cryptopro_a in
    let out = crypt_blocks st (enc == 1) (length in_ / 8) in_ in
    do
      mac ← mac4_raw (some st) true (some ukm) (bytes (if enc == 1 then in_ else out))
      some (out, mac)

pub wrap : Bool → Bool → Buffer → Option (List ℕ) → Buffer → ℕ → Option (List ℕ × List ℕ)
wrap true true in_ (some key) ukm enc =
    if is_null in_
      || (is_null ukm
          || ((not (len in_ == 32) && not (len in_ == 64))
              || (not (len ukm == 8) || (not (enc == 0) && not (enc == 1)))))
    then none
    else do
      ke ← kdf_tree_256 32 key label (contents ukm)
      wrap_with ke (contents in_) (contents ukm) enc
wrap _ _ _ _ _ _ = none

pub blob_crypt : Bool → Buffer → Option (List ℕ) → Buffer → ℕ → Option (List ℕ)
blob_crypt out in_ (some key) salt enc =
    if not out
      || (is_missing in_
          || (is_null salt || (ltb (len salt) 8 || (not (enc == 0) && not (enc == 1)))))
    then none
    else do
      done ←
          cfb_crypt (some (setkey_raw key sbox_cryptopro_a)) out in_ (some (take 8 (contents salt)))
            (enc == 1) false
      some done.1
blob_crypt out in_ none salt enc = none
