-- ===== src/Gost28147.antt =====
-- src/generic/gost28147_generic.c: the block cipher GOST 28147-89, its feedback mode with key
-- meshing and its message authentication code. A buffer is a list of bytes.
pub mod Sbox
pub mod Feistel
pub mod Context
pub mod Modes
mod Tests
use libpogost.Base.{
  ℕ, zero, suc, ◌+◌, ◌-◌, ◌*◌, bit_and, bit_or, bit_xor, Bool, true, false, not, List, [], ◌∷◌,
  ◌++◌, ltb, ◌==◌, if◌then◌else◌, get_or, drop, u32, ◌<<<◌, ◌>>>◌, get_le32, put_le32,
}
use Sbox.{sbox_tc26_z, key_mesh_key}

-- `struct gost28147_state`
pub record State : Type 0 where
  pub key : List ℕ
  pub sbox : List (List ℕ)

-- `st->sbox[7 - i][(v >> (i * 4)) & 0xf]`
pub sbox_entry : State → ℕ → ℕ → ℕ
sbox_entry st v i = get_or (get_or st.sbox (7 - i) []) (bit_and (v >>> (i * 4)) 0xf) 0

-- The loop of `subst` at index `i`, with `left` rounds to go.
pub subst_loop : State → ℕ → ℕ → ℕ → ℕ → ℕ
subst_loop st v zero i x = x
subst_loop st v (suc left) i x =
    subst_loop st v left (i + 1) (bit_or x (u32 (sbox_entry st v i <<< (i * 4))))

pub subst : State → ℕ → ℕ
unfolding subst_loop sbox_entry
subst st v = let x = subst_loop st v 8 0 0 in bit_or (u32 (x <<< 11)) (x >>> 21)

-- The two halves of a block in `crypt`.
pub record Halves : Type 0 where
  pub n1 : ℕ
  pub n2 : ℕ

-- The index of the round key in round `r`.
pub key_index : Bool → ℕ → ℕ
key_index dec r =
    if not dec
    then (if ltb r 24 then bit_and r 7 else 7 - bit_and r 7)
    else (if ltb r 8 then r else 7 - bit_and r 7)

-- One round with round key `k`; `r & 1` chooses the half that changes.
pub round : State → ℕ → ℕ → Halves → Halves
round st r k h =
    if bit_and r 1 == 1
    then record h { n1 = bit_xor h.n1 (subst st (u32 (h.n2 + k))) }
    else record h { n2 = bit_xor h.n2 (subst st (u32 (h.n1 + k))) }

-- The loop of `crypt` at round `r`, with `left` rounds to go.
pub crypt_loop : State → Bool → ℕ → ℕ → Halves → Halves
crypt_loop st dec zero r h = h
crypt_loop st dec (suc left) r h =
    crypt_loop st dec left (r + 1) (round st r (get_or st.key (key_index dec r) 0) h)

pub crypt : State → List ℕ → Bool → List ℕ
unfolding crypt_loop round key_index subst
crypt st in_ dec =
    let h = crypt_loop st dec 32 0 (record { n1 = get_le32 in_; n2 = get_le32 (drop 4 in_) }) in
    put_le32 h.n2 ++ put_le32 h.n1

pub load_key : ℕ → List ℕ → List ℕ
load_key zero key = []
load_key (suc left) key = get_le32 key ∷ load_key left (drop 4 key)

unfoldable pub setkey_raw : List ℕ → List (List ℕ) → State
unfolding load_key
setkey_raw key sbox = record { key = load_key 8 key; sbox = sbox }

unfoldable pub encrypt_raw : State → List ℕ → List ℕ
unfolding crypt
encrypt_raw st in_ = crypt st in_ false

pub decrypt_raw : State → List ℕ → List ℕ
unfolding crypt
decrypt_raw st in_ = crypt st in_ true
