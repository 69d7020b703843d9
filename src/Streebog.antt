-- ===== src/Streebog.antt =====
-- src/generic/streebog_generic.c: the hash function of GOST R 34.11-2012 on a little-endian
-- machine, where a 512-bit number in memory is its eight words with the lowest byte first.
mod Tables
pub mod Add
pub mod Update
pub mod Digest
pub mod Length
mod Tests
use libpogost.Base.{
  ℕ, zero, suc, ◌+◌, ◌-◌, ◌/◌, min, bit_and, bit_or, bit_xor, List, [], ◌∷◌, ◌++◌, map, ltb, leb,
  ◌==◌, if◌then◌else◌, length, get_or, take, drop, replicate, blit, u32, u64, ◌<<<◌, ◌>>>◌,
  get_le32, put_le32, xor_bytes, absorb,
}
use Tables.{round_constants, ax}

-- The union of `buffer` and `m`: eight words from bytes, and bytes from words.
pub get_le64 : List ℕ → ℕ
get_le64 b = bit_or (get_le32 b) (u64 (get_le32 (drop 4 b) <<< 32))

pub put_le64 : ℕ → List ℕ
put_le64 v = put_le32 (u32 v) ++ put_le32 (u32 (v >>> 32))

pub words_of_bytes : ℕ → List ℕ → List ℕ
words_of_bytes zero b = []
words_of_bytes (suc left) b = get_le64 b ∷ words_of_bytes left (drop 8 b)

pub bytes_of_words : List ℕ → List ℕ
bytes_of_words [] = []
bytes_of_words (w ∷ ws) = put_le64 w ++ bytes_of_words ws

-- A `struct streebog_uint512` is the list of its eight words.
abbrev pub buffer0 : List ℕ
buffer0 = replicate 8 0

abbrev buffer512 : List ℕ
buffer512 = 0x200 ∷ replicate 7 0

-- `streebog_xor` is `xor_bytes` on words. One word of `streebog_xlps` from the eight `r`.
xlps_word : List (List ℕ) → List ℕ → ℕ
xlps_word [] rs = 0
xlps_word (t ∷ ts) [] = 0
xlps_word (t ∷ ts) (r ∷ rs) = bit_xor (get_or t (bit_and r 0xff) 0) (xlps_word ts rs)

pub xlps_loop : ℕ → List ℕ → List ℕ
xlps_loop zero rs = []
xlps_loop (suc left) rs = xlps_word ax rs ∷ xlps_loop left (map (λ r. r >>> 8) rs)

pub xlps : List ℕ → List ℕ → List ℕ
unfolding xlps_loop xlps_word
xlps x y = xlps_loop 8 (xor_bytes x y)

-- `Ki` and `data` in the loop of `streebog_g`, with `cs` the constants of the rounds to go.
pub rounds : List (List ℕ) → List ℕ → List ℕ → List ℕ × List ℕ
rounds [] ki text = (ki, text)
rounds (c ∷ cs) ki text = let ki' = xlps ki c in rounds cs ki' (xlps ki' text)

pub g : List ℕ → List ℕ → List ℕ → List ℕ
unfolding rounds
g h n m =
    let ki = xlps h n in
    let r = rounds (take 11 round_constants) ki (xlps ki m) in
    let last = xlps r.0 (get_or round_constants 11 []) in
    xor_bytes (xor_bytes (xor_bytes last r.1) h) m

-- `streebog_add512` from word `i` on: `carry` is kept where the sum is the left word again.
pub add_loop : ℕ → List ℕ → List ℕ → List ℕ
add_loop carry [] ys = []
add_loop carry (x ∷ xs) [] = []
add_loop carry (x ∷ xs) (y ∷ ys) =
    let sum = u64 (x + y + carry) in
    let carry' = if sum == x then carry else (if ltb sum x then 1 else 0) in
    sum ∷ add_loop carry' xs ys

pub add512 : List ℕ → List ℕ → List ℕ
unfolding add_loop
add512 x y = add_loop 0 x y

-- The fields `h`, `N` and `Sigma` of the state, which the blocks go into.
pub record Core : Type 0 where
  pub h : List ℕ
  pub n : List ℕ
  pub sigma : List ℕ

pub record State : Type 0 where
  pub buffer : List ℕ
  pub hash : List ℕ
  pub core : Core
  pub fillsize : ℕ
  pub digest_size : ℕ

pub init : ℕ → State
init bits = record {
  buffer = replicate 64 0;
  hash = buffer0;
  core = record {
    h = (if bits / 8 == 32 then replicate 8 0x0101010101010101 else buffer0);
    n = buffer0;
    sigma = buffer0;
  };
  fillsize = 0;
  digest_size = bits / 8;
}

-- `streebog_stage2`: a full block.
pub stage2 : Core → List ℕ → Core
stage2 c block =
    let m = words_of_bytes 8 block in
    record { h = g c.h c.n m; n = add512 c.n buffer512; sigma = add512 c.sigma m }

pub pad : List ℕ → ℕ → List ℕ
pad buffer fillsize =
    if leb 64 fillsize
    then buffer
    else blit (blit buffer fillsize (replicate (64 - fillsize) 0)) fillsize (1 ∷ [])

-- The last blocks of `streebog_stage3`: the padded one, the count of bits and the check sum.
pub last_blocks : Core → ℕ → List ℕ → List ℕ
last_blocks c bits padded =
    let m = words_of_bytes 8 padded in
    let h1 = g c.h c.n m in
    let n1 = add512 c.n (bits ∷ replicate 7 0) in
    let sigma1 = add512 c.sigma m in g (g h1 buffer0 n1) buffer0 sigma1

-- `streebog_stage3` up to the copy into `hash`.
pub stage3 : State → List ℕ
stage3 st = last_blocks st.core (u64 (st.fillsize <<< 3)) (pad st.buffer st.fillsize)

-- The start of `streebog_update`, which fills up the buffer: the state and the input left.
pub fill_up : State → List ℕ → State × List ℕ
fill_up st input =
    let chunk = min (64 - st.fillsize) (length input) in
    let buffer' = blit st.buffer st.fillsize (take chunk input) in
    let filled = st.fillsize + chunk in
    if st.fillsize == 0
    then (st, input)
    else if filled == 64
    then (
      record st { buffer = buffer'; core = stage2 st.core buffer'; fillsize = 0 },
      drop chunk input,
    )
    else (record st { buffer = buffer'; fillsize = filled }, drop chunk input)

-- The end of `streebog_update`: what the blocks leave is copied to the start of the buffer.
pub settle : State → Core × List ℕ → State
settle st r =
    if ltb 0 (length r.1)
    then record st { buffer = blit st.buffer 0 r.1; core = r.0; fillsize = length r.1 }
    else record st { core = r.0 }

pub update : State → List ℕ → State
unfolding fill_up settle
update st input =
    let first = fill_up st input in
    settle first.0 (absorb 64 64 stage2 (length first.1) first.0.core first.1)

pub final : State → List ℕ
unfolding stage3
final st =
    let hash = stage3 st in
    bytes_of_words (if st.digest_size == 32 then drop 4 hash else take 8 hash)

pub streebog256 : List ℕ → List ℕ
unfolding init update final
streebog256 input = final (update (init 256) input)

pub streebog512 : List ℕ → List ℕ
unfolding init update final
streebog512 input = final (update (init 512) input)
