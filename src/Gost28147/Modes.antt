-- ===== src/Gost28147/Modes.antt =====
-- The modes of src/generic/gost28147_generic.c over the block cipher: cipher feedback with key
-- meshing, the four-byte authentication code, and the code of CryptoPro key containers.
pub mod Feedback
pub mod Imit
use libpogost.Base.{
  ℕ, zero, suc, ◌+◌, ◌-◌, ◌%◌, ◌^◌, min, bit_and, bit_xor, Bool, true, not, ◌&&◌, ◌||◌, Option,
  none, some, List, [], ◌++◌, ltb, leb, ◌==◌, if◌then◌else◌, length, get_or, take, drop, replicate,
  u32, get_le32, put_le32, xor_bytes, Buffer, is_null, len, contents, is_missing,
}
use libpogost.Gost28147.{State, Halves, subst, setkey_raw, encrypt_raw, decrypt_raw}
use libpogost.Gost28147.Sbox.{key_mesh_key, sbox_tc26_z}

-- `key + i * 8` from `key_mesh_key + i * 8`, for the `left` blocks to go.
mesh_blocks : State → ℕ → List ℕ → List ℕ
mesh_blocks st zero k = []
mesh_blocks st (suc left) k = decrypt_raw st (take 8 k) ++ mesh_blocks st left (drop 8 k)

key_mesh : State → List ℕ → State × List ℕ
unfolding mesh_blocks
key_mesh st iv =
    let st' = setkey_raw (mesh_blocks st 4 key_mesh_key) st.sbox in (st', encrypt_raw st' iv)

-- `if (mesh && off && !(off % 1024))`
pub mesh_due : Bool → ℕ → State → List ℕ → State × List ℕ
mesh_due mesh off st iv =
    if mesh && (ltb 0 off && (off % 1024 == 0)) then key_mesh st iv else (st, iv)

-- The loop of `gost28147_cfb_crypt` with `rest` at `in + off`. Each round takes at least one
-- byte, so the length of `rest` is fuel enough.
pub cfb_loop : Bool → Bool → ℕ → State → ℕ → List ℕ → List ℕ → State × List ℕ
cfb_loop enc mesh zero st off iv rest = (st, [])
cfb_loop enc mesh (suc fuel) st off iv rest =
    let n = min (length rest) 8 in
    let meshed = mesh_due mesh off st iv in
    let gamma = encrypt_raw meshed.0 meshed.1 in
    let c = xor_bytes (take n rest) gamma in
    let iv' = (if enc then c else take n rest) ++ drop n meshed.1 in
    let later = cfb_loop enc mesh fuel meshed.0 (off + n) iv' (drop n rest) in
    if ltb 0 (length rest) then (later.0, c ++ later.1) else (st, [])

-- `none` is the result -1. `st`, `out` and `iv` are pointers that may be null.
pub cfb_crypt :
    Option State → Bool → Buffer → Option (List ℕ) → Bool → Bool → Option (State × List ℕ)
unfolding cfb_loop mesh_due key_mesh
cfb_crypt (some st) true in_ (some iv) enc mesh =
    if is_missing in_ then none else some (cfb_loop enc mesh (len in_) st 0 iv (contents in_))
cfb_crypt _ _ _ _ _ _ = none

-- The sixteen rounds of the authentication code at round `r`, with `left` to go.
imit_loop : State → ℕ → ℕ → Halves → Halves
imit_loop st zero r h = h
imit_loop st (suc left) r h =
    let k = get_or st.key (bit_and r 7) 0 in
    imit_loop st left (r + 1) (
      if bit_and r 1 == 1
      then record h { n1 = bit_xor h.n1 (subst st (u32 (h.n2 + k))) }
      else record h { n2 = bit_xor h.n2 (subst st (u32 (h.n1 + k))) })

-- One block into the authentication code: `mac` and the block are joined by words.
pub imit_block : State → List ℕ → List ℕ → List ℕ
unfolding imit_loop
imit_block st mac block =
    let h = imit_loop st 16 0 (record {
      n1 = bit_xor (get_le32 mac) (get_le32 block);
      n2 = bit_xor (get_le32 (drop 4 mac)) (get_le32 (drop 4 block));
    }) in
    put_le32 h.n1 ++ put_le32 h.n2

-- All whole blocks of the input, in order: the code, and the input that is left.
pub imit_blocks : State → ℕ → List ℕ → List ℕ → List ℕ × List ℕ
imit_blocks st zero mac rest = (mac, rest)
imit_blocks st (suc fuel) mac rest =
    let later = imit_blocks st fuel (imit_block st mac (take 8 rest)) (drop 8 rest) in
    if leb 8 (length rest) then later else (mac, rest)

pub mac4_raw : Option State → Bool → Option (List ℕ) → Buffer → Option (List ℕ)
unfolding imit_blocks imit_block
mac4_raw (some st) true (some iv) in_ =
    if is_null in_ || (len in_ == 0 || not (len in_ % 8 == 0))
    then none
    else some (take 4 (imit_blocks st (len in_) (take 8 iv) (contents in_)).0)
mac4_raw _ _ _ _ = none

-- `key[i] = a[i] - b[i]` on 32-bit words, for the `left` words to go.
diff_key : ℕ → List ℕ → List ℕ → List ℕ
diff_key zero a b = []
diff_key (suc left) a b =
    put_le32 (u32 (get_le32 a + 2 ^ 32 - get_le32 b)) ++ diff_key left (drop 4 a) (drop 4 b)

-- The last sixteen rounds, which join nothing more.
imit_final : State → List ℕ → List ℕ
unfolding imit_loop
imit_final st buffer =
    let h = imit_loop st 16 0 (record { n1 = get_le32 buffer; n2 = get_le32 (drop 4 buffer) }) in
    put_le32 h.n1 ++ put_le32 h.n2

-- The parameters `initial`, `a`, `b` and `sbox` are pointers that may be null.
imit_cp12_sbox :
    Bool
    → Buffer
    → Option (List ℕ)
    → Option (List ℕ)
    → Option (List ℕ)
    → Option (List (List ℕ))
    → Option (List ℕ)
unfolding diff_key imit_blocks imit_block imit_final
imit_cp12_sbox true in_ (some initial) (some a) (some b) (some sbox) =
    let st = setkey_raw (diff_key 8 a b) sbox in
    let done = imit_blocks st (len in_) (take 8 initial) (contents in_) in
    let tail = done.1 ++ replicate (8 - length done.1) 0 in
    let buffer = if ltb 0 (length done.1) then xor_bytes done.0 tail else done.0 in
    if is_missing in_ then none else some (take 4 (imit_final st buffer))
imit_cp12_sbox _ _ _ _ _ _ = none

imit_cp12 : Bool → Buffer → Option (List ℕ) → Option (List ℕ) → Option (List ℕ) → Option (List ℕ)
unfolding imit_cp12_sbox
imit_cp12 out in_ initial a b = imit_cp12_sbox out in_ initial a b (some sbox_tc26_z)
