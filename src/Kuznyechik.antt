-- ===== src/Kuznyechik.antt =====
-- src/generic/kuznyechik_generic.c and src/kuznyechik.c: the block cipher. The three tables of
-- src/generic/kuztable.h that combine the substitution with the linear map are the record Tables.
pub mod Data
pub mod Field
pub mod Linear
pub mod Rounds
pub mod Cipher
pub mod Schedule
pub mod Simd
pub mod Interface
mod Tests
use libpogost.Base.{
  ℕ, zero, suc, ◌+◌, ◌*◌, Bool, true, Option, none, some, List, [], ◌∷◌, ◌++◌, map, get_or, take,
  drop, byte_at, xor_bytes,
}
use libpogost.Kuznyechik.Data.{pi_table, pi_inv_table, kuz_key_table}

-- `pi[x]` and `pi_inv[x]`
pub pi : ℕ → ℕ
pi x = byte_at pi_table x

pub pi_inv : ℕ → ℕ
pi_inv x = byte_at pi_inv_table x

-- `kuz_table`, `kuz_table_inv` and `kuz_table_inv_LS`: the 16 bytes at `[i][x * 16]`.
pub record Tables : Type 0 where
  pub table : ℕ → ℕ → List ℕ
  pub table_inv : ℕ → ℕ → List ℕ
  pub table_inv_ls : ℕ → ℕ → List ℕ

pub s_transform : List ℕ → List ℕ
unfolding pi
s_transform b = map pi b

pub sinv_transform : List ℕ → List ℕ
unfolding pi_inv
sinv_transform b = map pi_inv b

-- The rows of a table for the bytes from `i` on, joined to `t`.
pub join_rows : (ℕ → ℕ → List ℕ) → ℕ → List ℕ → List ℕ → List ℕ
join_rows tab i t [] = t
join_rows tab i t (x ∷ b) = join_rows tab (i + 1) (xor_bytes t (tab i x)) b

-- A copy of the first row, joined with the 15 others.
pub joined : (ℕ → ℕ → List ℕ) → List ℕ → List ℕ
unfolding join_rows
joined tab b = join_rows tab 1 (tab 0 (byte_at b 0)) (take 15 (drop 1 b))

-- `key + 16 * i`
abbrev pub part : List ℕ → ℕ → List ℕ
part key i = take 16 (drop (16 * i) key)

-- `struct kuznyechik_state`
pub record State : Type 0 where
  pub key : List ℕ
  pub dekey : List ℕ

module _ (T : Tables) where
  pub linv_transform : List ℕ → List ℕ
  linv_transform b = joined T.table_inv b

  pub lsx_transform : List ℕ → List ℕ → List ℕ
  lsx_transform b c = joined T.table (xor_bytes b c)

  pub xli_si : List ℕ → List ℕ → List ℕ
  xli_si b c = xor_bytes (joined T.table_inv_ls b) c

  -- The new 32 bytes: `out + 16` and `out` change in turn.
  pub subkey : List ℕ → ℕ → List ℕ
  subkey key i =
      let step = λ (x : List ℕ) (j : ℕ). lsx_transform x (get_or kuz_key_table (i + j) []) in
      let b1 = xor_bytes (step (part key 0) 0) (part key 1) in
      let a1 = xor_bytes (step b1 1) (part key 0) in
      let b2 = xor_bytes b1 (step a1 2) in
      let a2 = xor_bytes a1 (step b2 3) in
      let b3 = xor_bytes b2 (step a2 4) in
      let a3 = xor_bytes a2 (step b3 5) in
      let b4 = xor_bytes b3 (step a3 6) in let a4 = xor_bytes a3 (step b4 7) in a4 ++ b4

  -- `for (i = 0; i < 10; i++)` of `kuznyechik_generic_setkey`, with the parts to go.
  pub dekey_loop : ℕ → ℕ → List ℕ → List ℕ
  dekey_loop zero i key = []
  dekey_loop (suc left) i key = linv_transform (part key i) ++ dekey_loop left (i + 1) key

  pub expand_key : List ℕ → State
  unfolding dekey_loop
  expand_key key =
      let k0 = take 32 key in
      let k1 = subkey k0 0 in
      let k2 = subkey k1 8 in
      let k3 = subkey k2 16 in
      let k4 = subkey k3 24 in
      let all = k0 ++ (k1 ++ (k2 ++ (k3 ++ k4))) in
      record { key = all; dekey = dekey_loop 10 0 all }

  -- `ctx` says that the pointer is not null; `none` is the result -1.
  pub generic_setkey : Bool → Option (List ℕ) → Option State
  generic_setkey true (some key) = some (expand_key key)
  generic_setkey _ _ = none

  -- `lsx_transform(temp, state->key + 16 * i, temp)`, with the rounds to go.
  pub encrypt_rounds : ℕ → ℕ → State → List ℕ → List ℕ
  encrypt_rounds zero i st temp = temp
  encrypt_rounds (suc left) i st temp =
      encrypt_rounds left (i + 1) st (lsx_transform (part st.key i) temp)

  pub generic_encrypt : State → List ℕ → List ℕ
  generic_encrypt st in_ = xor_bytes (part st.key 9) (encrypt_rounds 9 0 st in_)

  -- `xli_si(temp, temp, state->dekey + 16 * left)` down to 1.
  pub decrypt_rounds : ℕ → State → List ℕ → List ℕ
  decrypt_rounds zero st temp = temp
  decrypt_rounds (suc left) st temp =
      decrypt_rounds left st (xli_si temp (part st.dekey (suc left)))

  pub generic_decrypt : State → List ℕ → List ℕ
  unfolding decrypt_rounds
  generic_decrypt st in_ =
      xor_bytes (sinv_transform (decrypt_rounds 9 st (s_transform in_))) (part st.key 0)

  -- The public functions.
  pub setkey : Bool → Option (List ℕ) → Option State
  unfolding generic_setkey
  setkey ctx key = generic_setkey ctx key

  pub encrypt : State → List ℕ → List ℕ
  unfolding generic_encrypt
  encrypt st in_ = generic_encrypt st in_

  pub decrypt : State → List ℕ → List ℕ
  unfolding generic_decrypt
  decrypt st in_ = generic_decrypt st in_
