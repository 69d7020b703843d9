-- ===== src/Sha1.antt =====
-- src/generic/sha1_generic.c. `struct sha1_ctx` is its hash value `h` with `block` and `used` as
-- the buffer before it, and `bits`.
pub mod Update
pub mod Digest
pub mod Length
mod Tests
use libpogost.Base.{
  ℕ, zero, suc, ◌+◌, ◌-◌, ◌*◌, bit_and, bit_or, bit_xor, List, [], ◌∷◌, ◌++◌, ltb, ◌==◌,
  if◌then◌else◌, length, get_or, take, drop, replicate, blit, u8, u32, u64, ◌<<<◌, ◌>>>◌, not32,
  byte_at, Buffered,
}

pub rol32 : ℕ → ℕ → ℕ
rol32 value shift = bit_or (u32 (value <<< shift)) (value >>> (32 - shift))

-- `w[i]` for the first 16 words, highest byte first.
load_words : ℕ → List ℕ → List ℕ
load_words zero block = []
load_words (suc left) block =
    bit_or
      (bit_or (bit_or (u32 (byte_at block 0 <<< 24)) (u32 (byte_at block 1 <<< 16)))
        (u32 (byte_at block 2 <<< 8)))
      (byte_at block 3)
    ∷ load_words left (drop 4 block)

-- `for (; i < 80; i++)`, with the words to go.
expand_words : ℕ → ℕ → List ℕ → List ℕ
unfolding rol32
expand_words zero i w = w
expand_words (suc left) i w =
    let x = λ (k : ℕ). get_or w (i - k) 0 in
    expand_words left (i + 1)
      (w ++ (rol32 (bit_xor (bit_xor (bit_xor (x 3) (x 8)) (x 14)) (x 16)) 1 ∷ []))

pub record Registers : Type 0 where
  pub a : ℕ
  pub b : ℕ
  pub c : ℕ
  pub d : ℕ
  pub e : ℕ

-- `f` and `k` of round `i`.
pub mix : ℕ → Registers → ℕ
mix i r =
    let parity = bit_xor (bit_xor r.b r.c) r.d in
    if ltb i 20
    then bit_or (bit_and r.b r.c) (bit_and (not32 r.b) r.d)
    else if ltb i 40
    then parity
    else if ltb i 60
    then bit_or (bit_or (bit_and r.b r.c) (bit_and r.b r.d)) (bit_and r.c r.d)
    else parity

constant : ℕ → ℕ
constant i =
    if ltb i 20
    then 0x5a827999
    else if ltb i 40
    then 0x6ed9eba1
    else if ltb i 60
    then 0x8f1bbcdc
    else 0xca62c1d6

pub round : ℕ → List ℕ → Registers → Registers
unfolding mix constant rol32
round i w r = record {
  a = u32 (rol32 r.a 5 + mix i r + r.e + constant i + get_or w i 0);
  b = r.a;
  c = rol32 r.b 30;
  d = r.c;
  e = r.d;
}

-- `for (i = 0; i < 80; i++)`, with the rounds to go.
pub rounds : ℕ → ℕ → List ℕ → Registers → Registers
unfolding round
rounds zero i w r = r
rounds (suc left) i w r = rounds left (i + 1) w (round i w r)

pub sha1_block : List ℕ → List ℕ → List ℕ
unfolding load_words expand_words rounds
sha1_block h block =
    let x = λ (i : ℕ). get_or h i 0 in
    let w = expand_words 64 16 (load_words 16 block) in
    let r = rounds 80 0 w (record { a = x 0; b = x 1; c = x 2; d = x 3; e = x 4 }) in
    u32 (x 0 + r.a) ∷ u32 (x 1 + r.b) ∷ u32 (x 2 + r.c) ∷ u32 (x 3 + r.d) ∷ u32 (x 4 + r.e) ∷ []

pub record State : Type 0 where
  pub buffered : Buffered (List ℕ)
  pub bits : ℕ

abbrev pub initial : List ℕ
initial = 0x67452301 ∷ 0xefcdab89 ∷ 0x98badcfe ∷ 0x10325476 ∷ 0xc3d2e1f0 ∷ []

-- `block` is not set by `sha1_init`: the model starts it with zeros.
pub init : State
init = record { buffered = record { core = initial; buffer = replicate 64 0; fill = 0 }; bits = 0 }

-- One round of the loop of `sha1_update` that takes `n` bytes.
pub take_in : Buffered (List ℕ) → ℕ → List ℕ → Buffered (List ℕ)
unfolding sha1_block
take_in st n text =
    let block = blit st.buffer st.fill (take n text) in
    if st.fill + n == 64
    then record { core = sha1_block st.core block; buffer = block; fill = 0 }
    else record { core = st.core; buffer = block; fill = st.fill + n }

-- `while (len)`, which takes at least one byte in each round.
pub update_loop : ℕ → Buffered (List ℕ) → List ℕ → Buffered (List ℕ)
update_loop zero st text = st
update_loop (suc fuel) st text =
    let n = if ltb (length text) (64 - st.fill) then length text else 64 - st.fill in
    let later = update_loop fuel (take_in st n text) (drop n text) in
    if ltb 0 (length text) then later else st

pub update : State → List ℕ → State
unfolding update_loop take_in
update st text = record {
  buffered = update_loop (length text) st.buffered text;
  bits = u64 (st.bits + u64 (length text * 8));
}

-- `(u8)(bits >> (56 - i * 8))` for the last eight bytes.
pub bits_bytes : ℕ → List ℕ
bits_bytes bits =
    u8 (bits >>> 56)
    ∷ u8 (bits >>> 48)
    ∷ u8 (bits >>> 40)
    ∷ u8 (bits >>> 32)
    ∷ u8 (bits >>> 24)
    ∷ u8 (bits >>> 16)
    ∷ u8 (bits >>> 8)
    ∷ u8 (bits >>> 0)
    ∷ []

pub words_bytes : List ℕ → List ℕ
words_bytes [] = []
words_bytes (h ∷ hs) = u8 (h >>> 24) ∷ u8 (h >>> 16) ∷ u8 (h >>> 8) ∷ u8 h ∷ words_bytes hs

-- The block that ends the message behind `used` bytes of `block`.
pub last_block : List ℕ → ℕ → ℕ → List ℕ
unfolding bits_bytes
last_block block used bits = blit (blit block used (replicate (56 - used) 0)) 56 (bits_bytes bits)

-- `ctx->h` at the end of `sha1_final`.
pub last_hash : State → List ℕ
unfolding last_block sha1_block
last_hash st =
    let b = st.buffered in
    let used = b.fill + 1 in
    let marked = blit b.buffer b.fill (0x80 ∷ []) in
    let cleared = blit marked used (replicate (64 - used) 0) in
    if ltb 56 used
    then sha1_block (sha1_block b.core cleared) (last_block cleared 0 st.bits)
    else sha1_block b.core (last_block marked used st.bits)

pub final : State → List ℕ
unfolding last_hash words_bytes
final st = words_bytes (last_hash st)
