-- ===== src/Kdf.antt =====
-- The derivations of src/generic/gost_tls_generic.c over the keyed hash: KDF_TREE, the TLS
-- pseudo-random function, the key trees of TLS and the HKDF of TLS 1.3.
pub mod Encoding
pub mod Output
mod Tests
use libpogost.Base.{
  ◌>>=◌, ℕ, zero, suc, ◌+◌, ◌-◌, ◌*◌, ◌/◌, ◌%◌, bit_and, bit_or, not, ◌||◌, Option, none, some,
  List, [], ◌∷◌, ◌++◌, ltb, ◌==◌, if◌then◌else◌, length, take, replicate, u8, u16, u64, ◌<<<◌,
  ◌>>>◌, byte_at, Buffer, is_null, len, contents,
}
use libpogost.Hmac.{hmac_streebog256, hmac_streebog256_parts}

gost_hmac_streebog256 : List ℕ → List ℕ → List ℕ
gost_hmac_streebog256 key input = hmac_streebog256 key input

-- The loop of `put_be`, the bytes so far in `acc`. A `size_t` has eight bytes.
pub put_be_loop : ℕ → ℕ → List ℕ → List ℕ
put_be_loop zero value acc = acc
put_be_loop (suc fuel) value acc =
    let acc' = bit_and value 0xff ∷ acc in
    let later = put_be_loop fuel (value >>> 8) acc' in if value >>> 8 == 0 then acc' else later

pub put_be : ℕ → List ℕ
unfolding put_be_loop
put_be value = put_be_loop 8 value []

-- `for (off = 0, counter = 1; off < out_len; off += 32, counter++)`, with the blocks to go.
pub kdf_tree_loop : ℕ → ℕ → List ℕ → List ℕ → List ℕ → List ℕ
kdf_tree_loop zero counter key label suffix = []
kdf_tree_loop (suc left) counter key label suffix =
    hmac_streebog256_parts key (counter ∷ []) label suffix
    ++ kdf_tree_loop left (u8 (counter + 1)) key label suffix

pub kdf_tree_256 : ℕ → List ℕ → List ℕ → List ℕ → Option (List ℕ)
unfolding kdf_tree_loop put_be
kdf_tree_256 out_len key label seed =
    if (out_len == 0)
      || (not (out_len % 32 == 0) || (ltb 255 (out_len / 32) || ltb 255 (length seed)))
    then none
    else some (kdf_tree_loop (out_len / 32) 1 key label ((0 ∷ seed) ++ put_be (u64 (out_len * 8))))

-- `while (out_len)` of `gost_tls_prf_256`; each round writes at least one byte.
pub prf_loop : ℕ → ℕ → List ℕ → List ℕ → List ℕ → List ℕ → List ℕ
prf_loop zero out_len secret a label seed = []
prf_loop (suc fuel) out_len secret a label seed =
    let block = hmac_streebog256_parts secret a label seed in
    let n = if ltb out_len 32 then out_len else 32 in
    let later = prf_loop fuel (out_len - n) secret (hmac_streebog256 secret a) label seed in
    if ltb 0 out_len then take n block ++ later else []

pub tls_prf_256 : ℕ → List ℕ → List ℕ → List ℕ → List ℕ
unfolding prf_loop
tls_prf_256 out_len secret label seed =
    prf_loop out_len out_len secret (hmac_streebog256_parts secret label seed []) label seed

-- `get_le64` and `put_le64` of this file: loops over the eight bytes from byte `i` on.
get_le64_loop : ℕ → ℕ → List ℕ → ℕ → ℕ
get_le64_loop zero i in_ value = value
get_le64_loop (suc left) i in_ value =
    get_le64_loop left (i + 1) in_ (bit_or value (u64 (byte_at in_ i <<< (8 * i))))

pub get_le64 : List ℕ → ℕ
unfolding get_le64_loop
get_le64 in_ = get_le64_loop 8 0 in_ 0

put_le64_loop : ℕ → ℕ → ℕ → List ℕ
put_le64_loop zero i value = []
put_le64_loop (suc left) i value = u8 (value >>> (8 * i)) ∷ put_le64_loop left (i + 1) value

unfoldable pub put_le64 : ℕ → List ℕ
unfolding put_le64_loop
put_le64 value = put_le64_loop 8 0 value

-- `put_be64`, from the last byte to the first.
put_be64_loop : ℕ → ℕ → List ℕ → List ℕ
put_be64_loop zero v acc = acc
put_be64_loop (suc left) v acc = put_be64_loop left (v >>> 8) (bit_and v 0xff ∷ acc)

unfoldable pub put_be64 : ℕ → List ℕ
unfolding put_be64_loop
put_be64 v = put_be64_loop 8 v []

-- "level1", "level2" and "level3"
abbrev level : ℕ → List ℕ
level n = 0x6c ∷ 0x65 ∷ 0x76 ∷ 0x65 ∷ 0x6c ∷ (0x30 + n) ∷ []

-- The three steps that the key trees share, from the seeds of the levels.
tree_levels : List ℕ → List ℕ → List ℕ → List ℕ → Option (List ℕ)
tree_levels key seed1 seed2 seed3 = do
  tmp1 ← kdf_tree_256 32 key (level 1) seed1
  tmp2 ← kdf_tree_256 32 tmp1 (level 2) seed2
  kdf_tree_256 32 tmp2 (level 3) seed3

tlstree_kuznyechik : List ℕ → List ℕ → Option (List ℕ)
unfolding tree_levels
tlstree_kuznyechik key seq =
    let n = get_le64 seq in
    tree_levels key (put_le64 (bit_and n 0x00000000ffffffff))
      (put_le64 (bit_and n 0x0000f8ffffffffff)) (put_le64 (bit_and n 0xc0ffffffffffffff))

tlstree_mgm_l : List ℕ → ℕ → Option (List ℕ)
unfolding tree_levels
tlstree_mgm_l key seq =
    tree_levels key (put_be64 (bit_and seq 0xf800000000000000))
      (put_be64 (bit_and seq 0xfffffff000000000)) (put_be64 (bit_and seq 0xffffffffffffe000))

tlstree_mgm_s : List ℕ → ℕ → Option (List ℕ)
unfolding tree_levels
tlstree_mgm_s key seq =
    tree_levels key (put_be64 (bit_and seq 0xffffffffe0000000))
      (put_be64 (bit_and seq 0xffffffffffff0000)) (put_be64 (bit_and seq 0xfffffffffffffff8))

-- `salt` may be a null pointer.
hkdf_extract : Buffer → List ℕ → List ℕ
hkdf_extract salt ikm =
    hmac_streebog256 (if is_null salt || (len salt == 0) then replicate 32 0 else contents salt) ikm

-- `while (done < okm_len)` with `left` bytes to go and the last block `t`.
pub expand_loop : ℕ → ℕ → ℕ → List ℕ → List ℕ → List ℕ → Option (List ℕ)
expand_loop zero left counter t prk info = some []
expand_loop (suc fuel) left counter t prk info =
    let n = if ltb left 32 then left else 32 in
    let in_buf = (if counter == 1 then [] else t) ++ (info ++ (counter ∷ [])) in
    let t' = hmac_streebog256 prk in_buf in
    let later = expand_loop fuel (left - n) (u8 (counter + 1)) t' prk info >>= λ okm.
    some (take n t' ++ okm) in
    if ltb 0 left then (if ltb 512 (length in_buf) then none else later) else some []

pub hkdf_expand : ℕ → List ℕ → List ℕ → Option (List ℕ)
unfolding expand_loop
hkdf_expand okm_len prk info =
    if ltb (255 * 32) okm_len then none else expand_loop okm_len okm_len 1 [] prk info

put_be16 : ℕ → List ℕ
put_be16 v = bit_and (v >>> 8) 0xff ∷ bit_and v 0xff ∷ []

-- "tls13 "
abbrev tls13 : List ℕ
tls13 = 0x74 ∷ 0x6c ∷ 0x73 ∷ 0x31 ∷ 0x33 ∷ 0x20 ∷ []

-- What `gost_tls13_hkdf_expand_label` writes into `hkdf_label`.
hkdf_label : ℕ → List ℕ → List ℕ → List ℕ
unfolding put_be16
hkdf_label okm_len label context =
    put_be16 (u16 okm_len)
    ++ (u8 (6 + length label) ∷ (tls13 ++ (label ++ (u8 (length context) ∷ context))))

hkdf_expand_label : ℕ → List ℕ → List ℕ → List ℕ → Option (List ℕ)
unfolding hkdf_expand hkdf_label
hkdf_expand_label okm_len secret label context =
    let full = 6 + length label in
    if ltb 255 full || (ltb 255 (length context) || ltb 512 (2 + 1 + full + 1 + length context))
    then none
    else hkdf_expand okm_len secret (hkdf_label okm_len label context)
