-- ===== src/KuznyechikModes.antt =====
-- The modes of Kuznyechik of src/generic/gost_tls_generic.c: OMAC, the counter mode that renews
-- its key, and the export of keys. The block cipher is the interface BlockCipher.
pub mod Counter
pub mod Omac
pub mod Parts
pub mod Export
pub mod Mgm
mod Tests
use libpogost.Base.{
  ℕ, zero, suc, ◌+◌, ◌-◌, ◌*◌, ◌/◌, ◌%◌, bit_and, bit_or, bit_xor, ◌≡◌, ◌&&◌, Option, none, some,
  List, [], ◌∷◌, ◌++◌, ltb, ◌==◌, if◌then◌else◌, length, set, take, drop, replicate, blit, u8,
  ◌<<<◌, ◌>>>◌, byte_at, xor_bytes, memeq,
}

-- `kuznyechik_setkey` and `kuznyechik_encrypt`: an output block has 16 bytes.
pub record BlockCipher : Type 1 where
  pub Ctx : Type 0
  pub setkey : List ℕ → Ctx
  pub encrypt : Ctx → List ℕ → List ℕ
  pub length-encrypt : (c : Ctx) (b : List ℕ) → length b ≡ 16 → length (encrypt c b) ≡ 16

-- The bytes shifted, and the bit that leaves them.
pub shift_left_loop : List ℕ → List ℕ × ℕ
shift_left_loop [] = ([], 0)
shift_left_loop (x ∷ xs) = let r = shift_left_loop xs in (bit_or (u8 (x <<< 1)) r.1 ∷ r.0, x >>> 7)

pub shift_left : List ℕ → List ℕ
unfolding shift_left_loop
shift_left in_ = (shift_left_loop in_).0

-- `msb = in[0] & 0x80; shift_left(out, in); if (msb) out[15] ^= 0x87;`
pub subkey : List ℕ → List ℕ
unfolding shift_left
subkey in_ =
    let out = shift_left in_ in
    if ltb 0 (bit_and (byte_at in_ 0) 0x80) then set out 15 (bit_xor (byte_at out 15) 0x87) else out

pub omac_byte : List ℕ → List ℕ → ℕ → ℕ
omac_byte a b pos = if ltb pos (length a) then byte_at a pos else byte_at b (pos - length a)

-- The bytes from `pos` on.
pub omac_bytes : List ℕ → List ℕ → ℕ → ℕ → List ℕ
unfolding omac_byte
omac_bytes a b pos zero = []
omac_bytes a b pos (suc n) = omac_byte a b pos ∷ omac_bytes a b (pos + 1) n

-- `for (i = 15; i >= 0; i--) if (++ctr[i]) break;`, with the bytes to go.
pub ctr_inc_loop : ℕ → List ℕ → List ℕ
ctr_inc_loop zero ctr = ctr
ctr_inc_loop (suc i) ctr =
    let c = u8 (byte_at ctr i + 1) in
    let later = ctr_inc_loop i (set ctr i c) in if c == 0 then later else set ctr i c

pub ctr_inc : List ℕ → List ℕ
unfolding ctr_inc_loop
ctr_inc ctr = ctr_inc_loop 16 ctr

module _ (E : BlockCipher) where
  -- `for (i = 0; i + 1 < blocks; i++)`, with the blocks to go.
  pub omac_loop : ℕ → ℕ → E.Ctx → List ℕ → List ℕ → List ℕ → List ℕ
  unfolding omac_bytes
  omac_loop zero i ctx state a b = state
  omac_loop (suc left) i ctx state a b =
      omac_loop left (i + 1) ctx (E.encrypt ctx (xor_bytes state (omac_bytes a b (i * 16) 16))) a b

  -- The last block, of `last_len` bytes.
  pub omac_last : List ℕ → List ℕ → List ℕ → ℕ → ℕ → List ℕ → List ℕ → List ℕ
  unfolding omac_bytes
  omac_last subkey1 subkey2 state blocks last_len a b =
      let tail = omac_bytes a b ((blocks - 1) * 16) last_len in
      if last_len == 16
      then xor_bytes (xor_bytes tail subkey1) state
      else xor_bytes (tail ++ (0x80 ∷ replicate (15 - last_len) 0)) (xor_bytes subkey2 state)

  pub omac2 : List ℕ → List ℕ → List ℕ → List ℕ
  unfolding subkey omac_loop omac_last
  omac2 key a b =
      let data_len = length a + length b in
      let blocks = if ltb 0 data_len then (data_len + 15) / 16 else 1 in
      let last_len = data_len - (blocks - 1) * 16 in
      let ctx = E.setkey key in
      let subkey1 = subkey (E.encrypt ctx (replicate 16 0)) in
      let state = omac_loop (blocks - 1) 0 ctx (replicate 16 0) a b in
      E.encrypt ctx (omac_last subkey1 (subkey subkey1) state blocks last_len a b)

  pub omac : List ℕ → List ℕ → List ℕ
  unfolding omac2
  omac key text = omac2 key text []

  acpkm_next : E.Ctx → E.Ctx
  acpkm_next ctx = E.setkey (
      E.encrypt ctx (
        0x80 ∷ 0x81 ∷ 0x82 ∷ 0x83 ∷ 0x84 ∷ 0x85 ∷ 0x86 ∷ 0x87 ∷ 0x88 ∷ 0x89 ∷ 0x8a ∷ 0x8b ∷ 0x8c
        ∷ 0x8d ∷ 0x8e ∷ 0x8f ∷ [])
      ++ E.encrypt ctx (
          0x90 ∷ 0x91 ∷ 0x92 ∷ 0x93 ∷ 0x94 ∷ 0x95 ∷ 0x96 ∷ 0x97 ∷ 0x98 ∷ 0x99 ∷ 0x9a ∷ 0x9b ∷ 0x9c
          ∷ 0x9d ∷ 0x9e ∷ 0x9f ∷ []))

  -- `if (done && section_size && done % section_size == 0) acpkm_next(&ctx);`
  pub renewed : E.Ctx → ℕ → ℕ → E.Ctx
  unfolding acpkm_next
  renewed ctx done section_size =
      if ltb 0 done && (ltb 0 section_size && (done % section_size == 0))
      then acpkm_next ctx
      else ctx

  -- `while (done < len)`, with the input to go.
  pub ctr_loop : ℕ → E.Ctx → List ℕ → ℕ → List ℕ → ℕ → List ℕ
  unfolding renewed ctr_inc
  ctr_loop zero ctx ctr done rest section_size = []
  ctr_loop (suc fuel) ctx ctr done rest section_size =
      let ctx' = renewed ctx done section_size in
      let n = if ltb (length rest) 16 then length rest else 16 in
      let later = ctr_loop fuel ctx' (ctr_inc ctr) (done + n) (drop n rest) section_size in
      if ltb 0 (length rest) then xor_bytes (take n rest) (E.encrypt ctx' ctr) ++ later else []

  -- The length of the input is fuel enough.
  pub ctr_acpkm : List ℕ → List ℕ → List ℕ → ℕ → List ℕ
  unfolding ctr_loop
  ctr_acpkm in_ key iv section_size =
      ctr_loop (length in_) (E.setkey key) (blit (replicate 16 0) 0 (take 8 iv)) 0 in_ section_size

  pub kexp15 : List ℕ → List ℕ → List ℕ → List ℕ → List ℕ
  unfolding omac ctr_acpkm
  kexp15 key mac_key enc_key iv = ctr_acpkm (key ++ omac mac_key (take 8 iv ++ key)) enc_key iv 0

  -- Minus one is `none`.
  pub kimp15 : List ℕ → List ℕ → List ℕ → List ℕ → Option (List ℕ)
  unfolding omac ctr_acpkm memeq
  kimp15 in_ mac_key enc_key iv =
      let plain = ctr_acpkm in_ enc_key iv 0 in
      let mac = omac mac_key (take 8 iv ++ take 32 plain) in
      if memeq mac (drop 32 plain) then some (take 32 plain) else none
