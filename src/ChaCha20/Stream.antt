-- ===== src/ChaCha20/Stream.antt =====
-- The stream cipher: the length it writes, and that it is its own inverse.
use libpogost.Base.{
  ℕ, zero, suc, ◌+◌, ◌*◌, ◌/◌, ◌≤◌, ◌<◌, min, bit_xor, ◌≡◌, refl, sym, ap, ◌∙◌, inl, inr, true,
  false, List, [], ◌∷◌, ◌++◌, arith, ltb, leb, Bool-cases, length, take, drop, length-append,
  length-set, length-take, length-drop, take-append-drop, take-append, drop-append, put_le32,
  xor_bytes, length-xor_bytes, xor_bytes-cancel, xor_bytes-append,
}
use libpogost.ChaCha20.{
  line, lines, column_round, diagonal_round, permute_loop, permute, add_words, block, crypt_loop,
  chacha_crypt,
}

length-line : (a b d n : ℕ) (x : List ℕ) → length (line a b d n x) ≡ length x
unfolding line
length-line a b d n x = length-set _ d _ ∙ length-set x a _

length-lines :
    (a0 b0 d0 a1 b1 d1 a2 b2 d2 a3 b3 d3 n : ℕ) (x : List ℕ)
    → length (lines a0 b0 d0 a1 b1 d1 a2 b2 d2 a3 b3 d3 n x) ≡ length x
unfolding lines
length-lines a0 b0 d0 a1 b1 d1 a2 b2 d2 a3 b3 d3 n x =
    length-line a3 b3 d3 n _
    ∙ length-line a2 b2 d2 n _
    ∙ length-line a1 b1 d1 n _
    ∙ length-line a0 b0 d0 n x

length-column_round : (x : List ℕ) → length (column_round x) ≡ length x
unfolding column_round
length-column_round x =
    length-lines 8 12 4 9 13 5 10 14 6 11 15 7 7 _
    ∙ length-lines 0 4 12 1 5 13 2 6 14 3 7 15 8 _
    ∙ length-lines 8 12 4 9 13 5 10 14 6 11 15 7 12 _
    ∙ length-lines 0 4 12 1 5 13 2 6 14 3 7 15 16 x

length-diagonal_round : (x : List ℕ) → length (diagonal_round x) ≡ length x
unfolding diagonal_round
length-diagonal_round x =
    length-lines 10 15 5 11 12 6 8 13 7 9 14 4 7 _
    ∙ length-lines 0 5 15 1 6 12 2 7 13 3 4 14 8 _
    ∙ length-lines 10 15 5 11 12 6 8 13 7 9 14 4 12 _
    ∙ length-lines 0 5 15 1 6 12 2 7 13 3 4 14 16 x

length-permute_loop : (left : ℕ) (x : List ℕ) → length (permute_loop left x) ≡ length x
unfolding permute_loop
length-permute_loop zero x = refl
length-permute_loop (suc left) x =
    length-permute_loop left (diagonal_round (column_round x))
    ∙ length-diagonal_round (column_round x)
    ∙ length-column_round x

length-permute : (x : List ℕ) (nrounds : ℕ) → length (permute x nrounds) ≡ length x
unfolding permute
length-permute x nrounds = length-permute_loop ((nrounds + 1) / 2) x

length-add_words : (xs ys : List ℕ) → length (add_words xs ys) ≡ 4 * min (length xs) (length ys)
unfolding add_words put_le32
length-add_words [] ys = omega arith
length-add_words (x ∷ xs) [] = omega arith
length-add_words (x ∷ xs) (y ∷ ys) = omega (arith, length-add_words xs ys)

-- The stream of a state of 16 words fills a block, and the state stays one of 16 words.
pub length-block :
    (st : List ℕ) (n : ℕ)
    → length st ≡ 16
    → (length (block st n).0 ≡ 64) × (length (block st n).1 ≡ 16)
unfolding block
length-block st n h =
    (omega (arith, length-add_words (permute st n) st, length-permute st n), length-set st 12 _ ∙ h)

module _ (fuel : ℕ) (st src : List ℕ) (n : ℕ) where
  abbrev later : List ℕ → List ℕ × List ℕ
  later rest = crypt_loop fuel (block st n).1 rest n

  -- The three ways through the loop.
  pub crypt_loop-long :
      64 ≤ length src
      → crypt_loop (suc fuel) st src n ≡ (
        xor_bytes (take 64 src) (block st n).0 ++ (later (drop 64 src)).0,
        (later (drop 64 src)).1,
      )
  unfolding crypt_loop
  crypt_loop-long h = let e : leb 64 (length src) ≡ true = ground arith in rw e

  pub crypt_loop_tail :
      0 < length src
      → length src < 64
      → crypt_loop (suc fuel) st src n ≡ (xor_bytes src (block st n).0, (block st n).1)
  unfolding crypt_loop
  crypt_loop_tail p h =
      let e : leb 64 (length src) ≡ false = ground arith in
      let f : ltb 0 (length src) ≡ true = ground arith in rw (e, f)

pub crypt_loop-nil : (fuel : ℕ) (st : List ℕ) (n : ℕ) → crypt_loop fuel st [] n ≡ ([], st)
unfolding crypt_loop
crypt_loop-nil zero st n = refl
crypt_loop-nil (suc fuel) st n = refl

-- A run that writes as much as it reads and that a second run undoes.
pub record Undone (fuel : ℕ) (st src : List ℕ) (n : ℕ) : Type 0 where
  same_length : length (crypt_loop fuel st src n).0 ≡ length src
  undone : crypt_loop fuel st (crypt_loop fuel st src n).0 n ≡ (src, (crypt_loop fuel st src n).1)

Undone-nil : (fuel : ℕ) (st : List ℕ) (n : ℕ) → Undone fuel st [] n
Undone-nil fuel st n =
    let e = crypt_loop-nil fuel st n in record { same_length = rw e refl; undone = rw (e, e) refl }

Undone-tail :
    (fuel : ℕ) (st src : List ℕ) (n : ℕ)
    → length st ≡ 16
    → 0 < length src
    → length src < 64
    → Undone (suc fuel) st src n
Undone-tail fuel st src n h p q =
    let b = length-block st n h in
    let once = crypt_loop_tail fuel st src n p q in
    let l : length (xor_bytes src (block st n).0) ≡ length src =
      omega (arith, length-xor_bytes src (block st n).0) in
    let twice =
      crypt_loop_tail fuel st (xor_bytes src (block st n).0) n (omega arith) (omega arith) in
    let back = xor_bytes-cancel src (block st n).0 (omega arith) in
    record { same_length = rw once l; undone = rw (once, twice, back) refl }

Undone-long :
    (fuel : ℕ) (st src : List ℕ) (n : ℕ)
    → length st ≡ 16
    → 64 ≤ length src
    → Undone fuel (block st n).1 (drop 64 src) n
    → Undone (suc fuel) st src n
Undone-long fuel st src n h p ih =
    let b = length-block st n h in
    let once = crypt_loop-long fuel st src n p in
    let c = xor_bytes (take 64 src) (block st n).0 in
    let out = (crypt_loop fuel (block st n).1 (drop 64 src) n).0 in
    let lc : 64 ≡ length c =
      omega (arith, length-xor_bytes (take 64 src) (block st n).0, length-take 64 src) in
    let twice = crypt_loop-long fuel st (c ++ out) n (omega (arith, length-append c out)) in
    let back = xor_bytes-cancel (take 64 src) (block st n).0 (omega (arith, length-take 64 src)) in
    record {
      same_length =
          rw once (omega (arith, length-append c out, ih.same_length, length-drop 64 src));
      undone =
          rw
            (
              once,
              twice,
              take-append 64 c out lc,
              drop-append 64 c out lc,
              ih.undone,
              back,
              take-append-drop 64 src,
            )
            refl;
    }

crypt_loop-Undone :
    (fuel : ℕ) (st src : List ℕ) (n : ℕ) → length st ≡ 16 → length src ≤ fuel → Undone fuel st src n
crypt_loop-Undone fuel st [] n h fits = Undone-nil fuel st n
crypt_loop-Undone zero st (x ∷ src) n h fits = absurd (omega arith)
crypt_loop-Undone (suc fuel) st (x ∷ src) n h fits = elim (Bool-cases (leb 64 (length (x ∷ src)))) [
  | inl e ↦ Undone-long fuel st (x ∷ src) n h (ground arith) (
      crypt_loop-Undone fuel (block st n).1 (drop 64 (x ∷ src)) n (length-block st n h).1
        (omega (arith, length-drop 64 (x ∷ src))))
  | inr e ↦ Undone-tail fuel st (x ∷ src) n h (omega arith) (ground arith)
]

-- The streams of `count` blocks from a state on, and the state after them.
pub key_stream : ℕ → List ℕ → ℕ → List ℕ
key_stream zero st n = []
key_stream (suc count) st n = (block st n).0 ++ key_stream count (block st n).1 n

-- The stream is as long as its blocks.
length-key_stream :
    (count : ℕ) (st : List ℕ) (n : ℕ) → length st ≡ 16 → length (key_stream count st n) ≡ 64 * count
unfolding key_stream
length-key_stream zero st n h = refl
length-key_stream (suc count) st n h =
    let b = length-block st n h in
    omega (
      arith,
      length-append (block st n).0 (key_stream count (block st n).1 n),
      b.0,
      length-key_stream count (block st n).1 n b.1,
    )

-- XOR with more bytes than there are, and with a stream in two pieces.
xor_bytes-short :
    (xs ys zs : List ℕ) → length xs ≤ length ys → xor_bytes xs (ys ++ zs) ≡ xor_bytes xs ys
xor_bytes-short [] ys zs h = refl
xor_bytes-short (x ∷ xs) [] zs h = absurd (omega arith)
xor_bytes-short (x ∷ xs) (y ∷ ys) zs h =
    ap (λ t. bit_xor x y ∷ t) (xor_bytes-short xs ys zs (omega arith))

xor_bytes-apart :
    (xs ys zs : List ℕ) (k : ℕ)
    → k ≤ length xs
    → length ys ≡ k
    → xor_bytes (take k xs) ys ++ xor_bytes (drop k xs) zs ≡ xor_bytes xs (ys ++ zs)
xor_bytes-apart xs ys zs k h e =
    sym (xor_bytes-append (take k xs) (drop k xs) ys zs (omega (arith, length-take k xs, h, e)))
    ∙ ap (λ t. xor_bytes t (ys ++ zs)) (take-append-drop k xs)

crypt_loop-key_stream :
    (fuel count : ℕ) (st src : List ℕ) (n : ℕ)
    → length st ≡ 16
    → length src ≤ fuel
    → length src ≤ 64 * count
    → (crypt_loop fuel st src n).0 ≡ xor_bytes src (key_stream count st n)
unfolding key_stream
crypt_loop-key_stream fuel count st [] n h fits enough = ap (λ t. t.0) (crypt_loop-nil fuel st n)
crypt_loop-key_stream zero count st (x ∷ src) n h fits enough = absurd (omega arith)
crypt_loop-key_stream (suc fuel) zero st (x ∷ src) n h fits enough = absurd (omega arith)
crypt_loop-key_stream (suc fuel) (suc count) st (x ∷ src) n h fits enough =
    let s = x ∷ src in
    let b = length-block st n h in
    let later = key_stream count (block st n).1 n in
    elim (Bool-cases (leb 64 (length s))) [
      | inl e ↦
          let long : 64 ≤ length s = ground (arith, e) in
          let short = length-drop 64 s in
          ap (λ t. t.0) (crypt_loop-long fuel st s n long)
          ∙ ap (λ t. xor_bytes (take 64 s) (block st n).0 ++ t)
              (crypt_loop-key_stream fuel count (block st n).1 (drop 64 s) n b.1
                (omega (arith, short)) (omega (arith, short)))
          ∙ xor_bytes-apart s (block st n).0 later 64 long b.0
      | inr e ↦
          let tail : length s < 64 = ground (arith, e) in
          ap (λ t. t.0) (crypt_loop_tail fuel st s n (omega arith) tail)
          ∙ sym (xor_bytes-short s (block st n).0 later (omega (arith, b.0, tail)))
    ]

pub crypted_twice :
    (st src : List ℕ) (nrounds : ℕ)
    → length st ≡ 16
    → (length (chacha_crypt st src nrounds).0 ≡ length src)
      × (chacha_crypt st (chacha_crypt st src nrounds).0 nrounds
          ≡ (src, (chacha_crypt st src nrounds).1))
unfolding chacha_crypt
crypted_twice st src nrounds h =
    let u = crypt_loop-Undone (length src) st src nrounds h (omega arith) in
    (
      u.same_length,
      ap (λ k. crypt_loop k st (crypt_loop (length src) st src nrounds).0 nrounds) u.same_length
          ∙ u.undone,
    )

-- From a state of 16 words, and with the stream of any number of blocks of 64 bytes that is at
-- least as long as the input: what is written is the input joined by XOR with the stream and has
-- as many bytes, and crypting it from the same state gives the input back and ends in the same
-- state.
pub chacha_crypt-chacha_crypt :
    (st src : List ℕ) (nrounds count : ℕ)
    → length st ≡ 16
    → length src ≤ 64 * count
    → ((chacha_crypt st src nrounds).0 ≡ xor_bytes src (key_stream count st nrounds))
      × (length (key_stream count st nrounds) ≡ 64 * count)
      × (length (chacha_crypt st src nrounds).0 ≡ length src)
      × (chacha_crypt st (chacha_crypt st src nrounds).0 nrounds
          ≡ (src, (chacha_crypt st src nrounds).1))
unfolding chacha_crypt
chacha_crypt-chacha_crypt st src nrounds count h enough =
    let twice = crypted_twice st src nrounds h in
    (
      crypt_loop-key_stream (length src) count st src nrounds h (omega arith) enough,
      length-key_stream count st nrounds h,
      twice.0,
      twice.1,
    )
