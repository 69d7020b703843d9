-- ===== src/Gost341194.antt =====
-- src/generic/gost3411_94_generic.c: the hash GOST R 34.11-94 over GOST 28147-89 with the
-- substitution box of CryptoPro. Buffers are lists of 32 bytes; `struct gost3411_94_ctx` is its
-- members `h`, `sum` and `len`, into which whole blocks go, with `rem` and `left` as the buffer
-- before them. Its member `cipher` is set before each use.
pub mod Update
pub mod Sum
mod Tests
use libpogost.Base.{
  ℕ, zero, suc, ◌+◌, ◌-◌, bit_or, bit_xor, List, [], ◌∷◌, ◌++◌, ltb, ◌==◌, if◌then◌else◌, length,
  take, drop, replicate, blit, u8, u16, u64, ◌<<<◌, ◌>>>◌, not8, byte_at, xor_bytes, len, absorb,
  Buffered,
}
use libpogost.Gost28147.{setkey_raw, encrypt_raw}
use libpogost.Gost28147.Sbox.{sbox_cryptopro_3411}

-- `key[i + 4 * j] = w[8 * i + j]`: row `j` of the key is byte `j` of each word of `w`.
swap_rows : ℕ → ℕ → List ℕ → List ℕ
swap_rows zero j w = []
swap_rows (suc left) j w =
    byte_at w j
    ∷ byte_at w (8 + j)
    ∷ byte_at w (16 + j)
    ∷ byte_at w (24 + j)
    ∷ swap_rows left (j + 1) w

swap_bytes : List ℕ → List ℕ
unfolding swap_rows
swap_bytes w = swap_rows 8 0 w

circle_xor8 : List ℕ → List ℕ
circle_xor8 w = take 24 (drop 8 w) ++ xor_bytes (take 8 w) (take 8 (drop 8 w))

transform_3 : List ℕ → List ℕ
transform_3 text =
    let x = λ (i : ℕ). byte_at text i in
    let low =
      bit_xor (bit_xor (bit_xor (bit_xor (bit_xor (x 0) (x 2)) (x 4)) (x 6)) (x 24)) (x 30) in
    let high =
      bit_xor (bit_xor (bit_xor (bit_xor (bit_xor (x 1) (x 3)) (x 5)) (x 7)) (x 25)) (x 31) in
    let acc = u16 (bit_or low (u16 high <<< 8)) in
    take 30 (drop 2 text) ++ (u8 acc ∷ u8 (acc >>> 8) ∷ [])

transforms : ℕ → List ℕ → List ℕ
transforms zero s = s
transforms (suc left) s = transforms left (transform_3 s)

-- The loop of `add_blocks` over both buffers, with the carry.
pub add_loop : ℕ → List ℕ → List ℕ → List ℕ
add_loop carry [] ys = []
add_loop carry (x ∷ xs) [] = []
add_loop carry (x ∷ xs) (y ∷ ys) = u8 (x + y + carry) ∷ add_loop ((x + y + carry) >>> 8) xs ys

pub add_blocks : List ℕ → List ℕ → List ℕ
unfolding add_loop
add_blocks left right = add_loop 0 left right

encrypt_key : List ℕ → List ℕ → List ℕ
unfolding encrypt_raw
encrypt_key key in_ = encrypt_raw (setkey_raw key sbox_cryptopro_3411) in_

-- The bytes of `u` that are complemented between the second and the third key.
abbrev complemented : List ℕ
complemented =
    0 ∷ 0xff ∷ 0 ∷ 0xff ∷ 0 ∷ 0xff ∷ 0 ∷ 0xff ∷ 0xff ∷ 0 ∷ 0xff ∷ 0 ∷ 0xff ∷ 0 ∷ 0xff ∷ 0 ∷ 0 ∷ 0xff
    ∷ 0xff ∷ 0 ∷ 0xff ∷ 0 ∷ 0 ∷ 0xff ∷ 0xff ∷ 0 ∷ 0 ∷ 0 ∷ 0xff ∷ 0xff ∷ 0 ∷ 0xff ∷ []

-- `u[i] = ~u[i]` for each marked byte.
complement_marked : List ℕ → List ℕ → List ℕ
complement_marked [] u = []
complement_marked (mark ∷ marks) [] = []
complement_marked (mark ∷ marks) (x ∷ u) =
    (if mark == 0 then x else not8 x) ∷ complement_marked marks u

hash_step : List ℕ → List ℕ → List ℕ
unfolding swap_bytes circle_xor8 complement_marked encrypt_key transforms transform_3
hash_step h m =
    let s1 = encrypt_key (swap_bytes (xor_bytes h m)) (take 8 h) in
    let u1 = circle_xor8 h in
    let v1 = circle_xor8 (circle_xor8 m) in
    let s2 = encrypt_key (swap_bytes (xor_bytes u1 v1)) (take 8 (drop 8 h)) in
    let u2 = complement_marked complemented (circle_xor8 u1) in
    let v2 = circle_xor8 (circle_xor8 v1) in
    let s3 = encrypt_key (swap_bytes (xor_bytes u2 v2)) (take 8 (drop 16 h)) in
    let u3 = circle_xor8 u2 in
    let v3 = circle_xor8 (circle_xor8 v2) in
    let s4 = encrypt_key (swap_bytes (xor_bytes u3 v3)) (take 8 (drop 24 h)) in
    let mixed = transforms 12 (s1 ++ (s2 ++ (s3 ++ s4))) in
    transforms 61 (xor_bytes (transform_3 (xor_bytes mixed m)) h)

pub record Core : Type 0 where
  pub h : List ℕ
  pub sum : List ℕ
  pub len : ℕ

-- A whole block: `hash_step`, `add_blocks` and `ctx->len += 32`.
pub take_block : Core → List ℕ → Core
unfolding hash_step add_blocks
take_block c block = record {
  h = hash_step c.h block;
  sum = add_blocks c.sum block;
  len = u64 (c.len + 32);
}

-- `struct gost3411_94_ctx`: `rem` is the buffer and `left` says how much of it is filled.
abbrev pub State : Type 0
State = Buffered Core

pub init : State
init = record {
  core = record { h = replicate 32 0; sum = replicate 32 0; len = 0 };
  buffer = replicate 32 0;
  fill = 0;
}

-- `while (len >= 32)` and what follows it, with `rest` at `data`.
pub take_rest : Core → List ℕ → List ℕ → State
unfolding take_block
take_rest core rem rest =
    let r = absorb 32 32 take_block (length rest) core rest in
    if ltb 0 (length r.1)
    then record { core = r.0; buffer = blit rem 0 r.1; fill = length r.1 }
    else record { core = r.0; buffer = rem; fill = 0 }

pub update : State → List ℕ → State
unfolding take_rest take_block
update st text =
    let n = if ltb (length text) (32 - st.fill) then length text else 32 - st.fill in
    let rem = blit st.buffer st.fill (take n text) in
    if ltb 0 st.fill
    then (if ltb (st.fill + n) 32
        then record { core = st.core; buffer = rem; fill = st.fill + n }
        else take_rest (take_block st.core rem) rem (drop n text))
    else take_rest st.core st.buffer text

-- `for (i = 0; len && i < sizeof(buf); i++)` over a zeroed buffer.
len_bytes : ℕ → ℕ → List ℕ
len_bytes zero len = []
len_bytes (suc left) len =
    let later = len_bytes left (len >>> 8) in
    if len == 0 then 0 ∷ replicate left 0 else u8 len ∷ later

-- `final` from the `left` bytes of `rem`.
pub finish : Core → ℕ → List ℕ → List ℕ
unfolding hash_step add_blocks len_bytes
finish core left rem =
    let buf = blit (replicate 32 0) 0 rem in
    let some_left = ltb 0 left in
    let h = if some_left then hash_step core.h buf else core.h in
    let sum = if some_left then add_blocks core.sum buf else core.sum in
    let len = if some_left then u64 (core.len + left) else core.len in
    let h' = if len == 0 then hash_step h (replicate 32 0) else h in
    hash_step (hash_step h' (len_bytes 32 (u64 (len <<< 3)))) sum

pub final : State → List ℕ
unfolding finish
final st = finish st.core st.fill (take st.fill st.buffer)

-- `if (a_len) update(&ctx, a, a_len);`
pub feed : State → List ℕ → State
unfolding update
feed st a = if ltb 0 (length a) then update st a else st

pub gost3411_94_cryptopro_parts : List ℕ → List ℕ → List ℕ → List ℕ
unfolding init feed final
gost3411_94_cryptopro_parts a b c = final (feed (feed (feed init a) b) c)

pub gost3411_94_cryptopro : List ℕ → List ℕ
unfolding gost3411_94_cryptopro_parts
gost3411_94_cryptopro text = gost3411_94_cryptopro_parts text [] []
