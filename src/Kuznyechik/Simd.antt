-- ===== src/Kuznyechik/Simd.antt =====
-- src/x86_64/kuznyechik_simd.c: the key schedule of the backend for x86-64, which joins the rows
-- of the tables as two words. Its encryption and decryption of blocks are assembly.
pub mod Words
pub mod Same
use libpogost.Base.{
  ℕ, zero, suc, ◌+◌, ◌*◌, bit_or, bit_xor, Bool, true, not, Option, none, some, List, [], ◌∷◌, ◌++◌,
  if◌then◌else◌, get_or, take, drop, u8, u64, ◌<<<◌, ◌>>>◌, byte_at, xor_bytes,
}
use libpogost.Kuznyechik.Data.{kuz_key_table}
use libpogost.Kuznyechik.{Tables, State, part}

-- The loops over the eight bytes from byte `i` on.
pub load_le64_loop : ℕ → ℕ → List ℕ → ℕ → ℕ
load_le64_loop zero i src value = value
load_le64_loop (suc left) i src value =
    load_le64_loop left (i + 1) src (bit_or value (u64 (byte_at src i <<< (i * 8))))

pub load_le64 : List ℕ → ℕ
unfolding load_le64_loop
load_le64 src = load_le64_loop 8 0 src 0

pub store_le64_loop : ℕ → ℕ → ℕ → List ℕ
store_le64_loop zero i value = []
store_le64_loop (suc left) i value = u8 (value >>> (i * 8)) ∷ store_le64_loop left (i + 1) value

pub store_le64 : ℕ → List ℕ
unfolding store_le64_loop
store_le64 value = store_le64_loop 8 0 value

-- `for (i = 0; i < KUZNYECHIK_BLOCK_SIZE; i++)`, with the bytes from `i` on.
pub kuz_l_loop : (ℕ → ℕ → List ℕ) → ℕ → List ℕ → ℕ → ℕ → ℕ × ℕ
unfolding load_le64
kuz_l_loop table i [] lo hi = (lo, hi)
kuz_l_loop table i (x ∷ in_) lo hi =
    let p = table i x in
    kuz_l_loop table (i + 1) in_ (bit_xor lo (load_le64 p)) (bit_xor hi (load_le64 (drop 8 p)))

pub kuz_l : (ℕ → ℕ → List ℕ) → List ℕ → List ℕ
unfolding kuz_l_loop store_le64
kuz_l table in_ = let r = kuz_l_loop table 0 (take 16 in_) 0 0 in store_le64 r.0 ++ store_le64 r.1

module _ (T : Tables) where
  pub kuz_lsx : List ℕ → List ℕ → List ℕ
  unfolding kuz_l
  kuz_lsx in_ key = kuz_l T.table (xor_bytes in_ key)

  -- The new 32 bytes: `out + 16` and `out` change in turn.
  pub kuz_subkey : List ℕ → ℕ → List ℕ
  unfolding kuz_lsx
  kuz_subkey key n =
      let block = λ (x : List ℕ) (j : ℕ). kuz_lsx x (get_or kuz_key_table (n + j) []) in
      let b1 = xor_bytes (block (part key 0) 0) (part key 1) in
      let a1 = xor_bytes (block b1 1) (part key 0) in
      let b2 = xor_bytes b1 (block a1 2) in
      let a2 = xor_bytes a1 (block b2 3) in
      let b3 = xor_bytes b2 (block a2 4) in
      let a3 = xor_bytes a2 (block b3 5) in
      let b4 = xor_bytes b3 (block a3 6) in let a4 = xor_bytes a3 (block b4 7) in a4 ++ b4

  pub kuz_dekey_loop : ℕ → ℕ → List ℕ → List ℕ
  unfolding kuz_l
  kuz_dekey_loop zero i key = []
  kuz_dekey_loop (suc left) i key =
      kuz_l T.table_inv (part key i) ++ kuz_dekey_loop left (i + 1) key

  -- `state` says that the pointer is not null; `none` is the result -1.
  pub kuz_expand_key : Bool → Option (List ℕ) → Option State
  unfolding kuz_subkey kuz_dekey_loop
  kuz_expand_key true (some key) =
      let k0 = take 32 key in
      let k1 = kuz_subkey k0 0 in
      let k2 = kuz_subkey k1 8 in
      let k3 = kuz_subkey k2 16 in
      let k4 = kuz_subkey k3 24 in
      let all = k0 ++ (k1 ++ (k2 ++ (k3 ++ k4))) in
      some (record { key = all; dekey = kuz_dekey_loop 10 0 all })
  kuz_expand_key _ _ = none

  pub simd_setkey : Bool → Option (List ℕ) → Option State
  unfolding kuz_expand_key
  simd_setkey ctx key = if not ctx then none else kuz_expand_key true key
