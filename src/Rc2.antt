-- ===== src/Rc2.antt =====
-- src/generic/rc2_generic.c: the block cipher RC2 and its cipher block chaining.
pub mod Table
pub mod Word
pub mod Rounds
pub mod Block
pub mod Chain
pub mod Join
mod Tests
use libpogost.Base.{
  ℕ, zero, suc, ◌+◌, ◌-◌, ◌^◌, bit_and, bit_or, bit_xor, ◌&&◌, ◌||◌, List, [], ◌∷◌, ◌++◌, ltb, leb,
  ◌==◌, if◌then◌else◌, length, get_or, set, take, drop, replicate, u8, u32, ◌<<<◌, ◌>>>◌, not32,
  byte_at, xor_bytes,
}
use Table.{key_table}

-- `u32` subtraction.
abbrev pub sub32 : ℕ → ℕ → ℕ
sub32 a b = u32 (a + 2 ^ 32 - u32 b)

abbrev pub table : ℕ → ℕ
table i = get_or key_table i 0

-- The loop that fills `k` from index `i` to the end, with `left` entries to go.
expand : ℕ → ℕ → ℕ → ℕ → List ℕ → List ℕ
expand zero i j d k = k
expand (suc left) i j d k =
    let d' = table (bit_and (byte_at k j + d) 0xff) in expand left (i + 1) (j + 1) d' (set k i d')

-- `while (i--)`, with `i` entries to go.
reduce : ℕ → ℕ → ℕ → List ℕ → List ℕ
reduce zero j d k = k
reduce (suc i) j d k = let d' = table (bit_xor (byte_at k (i + j)) d) in reduce i j d' (set k i d')

-- `key->data[i]` for the `left` words to go.
pack_words : ℕ → List ℕ → List ℕ
pack_words zero k = []
pack_words (suc left) k =
    u32 (bit_or (byte_at k 0) (byte_at k 1 <<< 8)) ∷ pack_words left (drop 2 k)

-- `bits` is an `int` that is not negative here; 0 and numbers above 1024 stand for 1024.
pub set_key : List ℕ → ℕ → List ℕ
unfolding expand reduce pack_words
set_key key bits' =
    let given = take 128 key in
    let n = length given in
    let bits = if bits' == 0 || ltb 1024 bits' then 1024 else bits' in
    let k0 = given ++ replicate (128 - n) 0 in
    let d0 = byte_at k0 (if n == 0 then 0 else n - 1) in
    let k1 = expand (128 - n) n 0 d0 k0 in
    let j = (bits + 7) >>> 3 in
    let i = 128 - j in
    let c = 0xff >>> bit_and (2 ^ 32 - bits) 0x07 in
    let d1 = table (bit_and (byte_at k1 i) c) in
    let k2 = reduce i j d1 (set k1 i d1) in pack_words 64 k2

-- The four words of a block.
pub record Words : Type 0 where
  pub x0 : ℕ
  pub x1 : ℕ
  pub x2 : ℕ
  pub x3 : ℕ

abbrev pub low16 : ℕ → ℕ
low16 x = bit_and x 0xffff

-- `((t << s) | (t >> (16 - s))) & 0xffff`
abbrev pub rotate : ℕ → ℕ → ℕ
rotate t s = low16 (bit_or (u32 (t <<< s)) (t >>> (16 - s)))

-- One word of a mixing round: `(a + (b & ~d) + (c & d) + k) & 0xffff`.
pub mix_word : ℕ → ℕ → ℕ → ℕ → ℕ → ℕ
mix_word a b c d k = low16 (u32 (a + bit_and b (not32 d) + bit_and c d + k))

-- `(t - (b & ~d) - (c & d) - k) & 0xffff`
pub unmix_word : ℕ → ℕ → ℕ → ℕ → ℕ → ℕ
unmix_word t b c d k = low16 (sub32 (sub32 (sub32 t (bit_and b (not32 d))) (bit_and c d)) k)

module _ (key : List ℕ) where
  abbrev word : ℕ → ℕ
  word i = get_or key i 0

  -- The four assignments of a mixing round, with `p0` at index `p`.
  pub mix : ℕ → Words → Words
  unfolding mix_word
  mix p x =
      let y0 = rotate (mix_word x.x0 x.x1 x.x2 x.x3 (word p)) 1 in
      let y1 = rotate (mix_word x.x1 x.x2 x.x3 y0 (word (p + 1))) 2 in
      let y2 = rotate (mix_word x.x2 x.x3 y0 y1 (word (p + 2))) 3 in
      let y3 = rotate (mix_word x.x3 y0 y1 y2 (word (p + 3))) 5 in
      record { x0 = y0; x1 = y1; x2 = y2; x3 = y3 }

  pub mash : Words → Words
  mash x =
      let y0 = low16 (u32 (x.x0 + word (bit_and x.x3 0x3f))) in
      let y1 = low16 (u32 (x.x1 + word (bit_and y0 0x3f))) in
      let y2 = low16 (u32 (x.x2 + word (bit_and y1 0x3f))) in
      let y3 = low16 (u32 (x.x3 + word (bit_and y2 0x3f))) in
      record { x0 = y0; x1 = y1; x2 = y2; x3 = y3 }

  -- The same of decryption, with `p0` at index `p + 3` when the round begins.
  pub unmix : ℕ → Words → Words
  unfolding unmix_word
  unmix p y =
      let x3 = unmix_word (rotate y.x3 11) y.x0 y.x1 y.x2 (word (p + 3)) in
      let x2 = unmix_word (rotate y.x2 13) x3 y.x0 y.x1 (word (p + 2)) in
      let x1 = unmix_word (rotate y.x1 14) x2 x3 y.x0 (word (p + 1)) in
      let x0 = unmix_word (rotate y.x0 15) x1 x2 x3 (word p) in
      record { x0 = x0; x1 = x1; x2 = x2; x3 = x3 }

  pub unmash : Words → Words
  unmash y =
      let x3 = low16 (sub32 y.x3 (word (bit_and y.x2 0x3f))) in
      let x2 = low16 (sub32 y.x2 (word (bit_and y.x1 0x3f))) in
      let x1 = low16 (sub32 y.x1 (word (bit_and y.x0 0x3f))) in
      let x0 = low16 (sub32 y.x0 (word (bit_and x3 0x3f))) in
      record { x0 = x0; x1 = x1; x2 = x2; x3 = x3 }

  -- `for (;;)` with the counters `n` and `i`: sixteen rounds suffice for 3 and 5.
  pub encrypt_loop : ℕ → ℕ → ℕ → ℕ → Words → Words
  encrypt_loop zero p n i x = x
  encrypt_loop (suc fuel) p n i x =
      let y = mix p x in
      let turn = i - 1 == 0 in
      let n' = if turn then n - 1 else n in
      let i' = if turn then (if n' == 2 then 6 else 5) else i - 1 in
      let later = encrypt_loop fuel (p + 4) n' i' (if turn then mash y else y) in
      if turn && (n' == 0) then y else later

  pub decrypt_loop : ℕ → ℕ → ℕ → ℕ → Words → Words
  decrypt_loop zero p n i x = x
  decrypt_loop (suc fuel) p n i x =
      let y = unmix p x in
      let turn = i - 1 == 0 in
      let n' = if turn then n - 1 else n in
      let i' = if turn then (if n' == 2 then 6 else 5) else i - 1 in
      let later = decrypt_loop fuel (p - 4) n' i' (if turn then unmash y else y) in
      if turn && (n' == 0) then y else later

-- `(u32)in[0] | ((u32)in[1] << 8)` and so on.
pub load_block : List ℕ → Words
load_block b = record {
  x0 = bit_or (byte_at b 0) (u32 (byte_at b 1 <<< 8));
  x1 = bit_or (byte_at b 2) (u32 (byte_at b 3 <<< 8));
  x2 = bit_or (byte_at b 4) (u32 (byte_at b 5 <<< 8));
  x3 = bit_or (byte_at b 6) (u32 (byte_at b 7 <<< 8));
}

pub store_block : Words → List ℕ
store_block x =
    u8 (bit_and x.x0 0xff)
    ∷ u8 (bit_and (x.x0 >>> 8) 0xff)
    ∷ u8 (bit_and x.x1 0xff)
    ∷ u8 (bit_and (x.x1 >>> 8) 0xff)
    ∷ u8 (bit_and x.x2 0xff)
    ∷ u8 (bit_and (x.x2 >>> 8) 0xff)
    ∷ u8 (bit_and x.x3 0xff)
    ∷ u8 (bit_and (x.x3 >>> 8) 0xff)
    ∷ []

pub encrypt_block : List ℕ → List ℕ → List ℕ
unfolding encrypt_loop mix mash load_block store_block
encrypt_block key in_ = store_block (encrypt_loop key 16 0 3 5 (load_block in_))

pub decrypt_block : List ℕ → List ℕ → List ℕ
unfolding decrypt_loop unmix unmash load_block store_block
decrypt_block key in_ = store_block (decrypt_loop key 16 60 3 5 (load_block in_))

-- The loops of both directions give back the last `iv` and the output. Each round takes eight
-- bytes; bytes behind the last whole block are not read.
pub cbc_encrypt_loop : List ℕ → ℕ → List ℕ → List ℕ → List ℕ × List ℕ
cbc_encrypt_loop key zero iv in_ = (iv, [])
cbc_encrypt_loop key (suc fuel) iv in_ =
    let out = encrypt_block key (xor_bytes (take 8 in_) iv) in
    let later = cbc_encrypt_loop key fuel out (drop 8 in_) in
    if leb 8 (length in_) then (later.0, out ++ later.1) else (iv, [])

pub cbc_decrypt_loop : List ℕ → ℕ → List ℕ → List ℕ → List ℕ × List ℕ
cbc_decrypt_loop key zero iv in_ = (iv, [])
cbc_decrypt_loop key (suc fuel) iv in_ =
    let out = xor_bytes (decrypt_block key (take 8 in_)) iv in
    let later = cbc_decrypt_loop key fuel (take 8 in_) (drop 8 in_) in
    if leb 8 (length in_) then (later.0, out ++ later.1) else (iv, [])

-- The length of the input is fuel enough.
pub cbc_encrypt : List ℕ → List ℕ → List ℕ → List ℕ × List ℕ
unfolding cbc_encrypt_loop encrypt_block
cbc_encrypt key iv in_ = cbc_encrypt_loop key (length in_) iv in_

pub cbc_decrypt : List ℕ → List ℕ → List ℕ → List ℕ × List ℕ
unfolding cbc_decrypt_loop decrypt_block
cbc_decrypt key iv in_ = cbc_decrypt_loop key (length in_) iv in_
