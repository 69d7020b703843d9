-- ===== src/ChaCha20.antt =====
-- The stream cipher of src/generic/chacha_block_generic.c, src/generic/chacha_generic.c and
-- src/generic/chacha_api.c. A state is the list of its 16 words.
pub mod Stream
pub mod Seek
pub mod Aead
mod Tests
use libpogost.Base.{
  ℕ, zero, suc, ◌+◌, ◌-◌, ◌/◌, bit_or, bit_xor, List, [], ◌∷◌, ◌++◌, ltb, leb, if◌then◌else◌,
  length, get_or, set, take, drop, u32, ◌<<<◌, ◌>>>◌, get_le32, put_le32, xor_bytes,
}

pub rol32 : ℕ → ℕ → ℕ
rol32 x n = bit_or (u32 (x <<< n)) (x >>> (32 - n))

-- `x[a] += x[b]; x[d] = rol32(x[d] ^ x[a], n);`
pub line : ℕ → ℕ → ℕ → ℕ → List ℕ → List ℕ
unfolding rol32
line a b d n x =
    let x' = set x a (u32 (get_or x a 0 + get_or x b 0)) in
    set x' d (rol32 (bit_xor (get_or x' d 0) (get_or x' a 0)) n)

-- Four such statements, which stand together in the source.
pub lines : ℕ → ℕ → ℕ → ℕ → ℕ → ℕ → ℕ → ℕ → ℕ → ℕ → ℕ → ℕ → ℕ → List ℕ → List ℕ
unfolding line
lines a0 b0 d0 a1 b1 d1 a2 b2 d2 a3 b3 d3 n x =
    line a3 b3 d3 n (line a2 b2 d2 n (line a1 b1 d1 n (line a0 b0 d0 n x)))

pub column_round : List ℕ → List ℕ
unfolding lines
column_round x = lines 8 12 4 9 13 5 10 14 6 11 15 7 7 (
    lines 0 4 12 1 5 13 2 6 14 3 7 15 8
      (lines 8 12 4 9 13 5 10 14 6 11 15 7 12 (lines 0 4 12 1 5 13 2 6 14 3 7 15 16 x)))

pub diagonal_round : List ℕ → List ℕ
unfolding lines
diagonal_round x = lines 10 15 5 11 12 6 8 13 7 9 14 4 7 (
    lines 0 5 15 1 6 12 2 7 13 3 4 14 8
      (lines 10 15 5 11 12 6 8 13 7 9 14 4 12 (lines 0 5 15 1 6 12 2 7 13 3 4 14 16 x)))

-- The loop of `chacha_permute`, with the double rounds to go.
pub permute_loop : ℕ → List ℕ → List ℕ
unfolding column_round diagonal_round
permute_loop zero x = x
permute_loop (suc left) x = permute_loop left (diagonal_round (column_round x))

-- `for (i = 0; i < nrounds; i += 2)`
pub permute : List ℕ → ℕ → List ℕ
unfolding permute_loop
permute x nrounds = permute_loop ((nrounds + 1) / 2) x

-- `put_unaligned_le32(permuted_state.x[i] + state->x[i], ...)` for every word.
pub add_words : List ℕ → List ℕ → List ℕ
unfolding put_le32
add_words [] ys = []
add_words (x ∷ xs) [] = []
add_words (x ∷ xs) (y ∷ ys) = put_le32 (u32 (x + y)) ++ add_words xs ys

-- The stream of one block, and the state with the next block counter.
pub block : List ℕ → ℕ → List ℕ × List ℕ
unfolding permute add_words
block state nrounds =
    (add_words (permute state nrounds) state, set state 12 (u32 (get_or state 12 0 + 1)))

pub hchacha_block : List ℕ → ℕ → List ℕ
unfolding permute
hchacha_block state nrounds = let x = permute state nrounds in take 4 x ++ take 4 (drop 12 x)

-- `while (bytes >= CHACHA_BLOCK_SIZE)` and the rest of the input: what is written, and the state.
pub crypt_loop : ℕ → List ℕ → List ℕ → ℕ → List ℕ × List ℕ
unfolding block
crypt_loop zero state src nrounds = ([], state)
crypt_loop (suc fuel) state src nrounds =
    let b = block state nrounds in
    let later = crypt_loop fuel b.1 (drop 64 src) nrounds in
    if leb 64 (length src)
    then (xor_bytes (take 64 src) b.0 ++ later.0, later.1)
    else (if ltb 0 (length src) then (xor_bytes src b.0, b.1) else ([], state))

-- The length of the input is fuel enough.
pub chacha_crypt : List ℕ → List ℕ → ℕ → List ℕ × List ℕ
unfolding crypt_loop
chacha_crypt state src nrounds = crypt_loop (length src) state src nrounds

pub chacha_init : List ℕ → List ℕ → List ℕ
unfolding get_le32
chacha_init key iv =
    0x61707865
    ∷ 0x3320646e
    ∷ 0x79622d32
    ∷ 0x6b206574
    ∷ get_or key 0 0
    ∷ get_or key 1 0
    ∷ get_or key 2 0
    ∷ get_or key 3 0
    ∷ get_or key 4 0
    ∷ get_or key 5 0
    ∷ get_or key 6 0
    ∷ get_or key 7 0
    ∷ get_le32 iv
    ∷ get_le32 (drop 4 iv)
    ∷ get_le32 (drop 8 iv)
    ∷ get_le32 (drop 12 iv)
    ∷ []
