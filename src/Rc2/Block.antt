-- ===== src/Rc2/Block.antt =====
-- Decryption of a block undoes encryption: the words of a block, and its bytes.
use libpogost.Base.{
  ℕ, ◌+◌, ◌*◌, ◌/◌, ◌%◌, ◌^◌, ◌<◌, bit_and, bit_or, ◌≡◌, refl, ap, ◌∙◌, List, [], ◌∷◌, arith,
  length, Below, u8, u32, ◌<<<◌, ◌>>>◌, bit_or_disjoint, bit_and_mask,
}
use libpogost.Rc2.{Words, decrypt_loop, load_block, store_block, encrypt_block, decrypt_block}
use libpogost.Rc2.Rounds.{
  IsFit, words_eq, run, schedule, run_back-run, run-IsFit, encrypt_loop-run, decrypt_loop-run_back,
}

low8 : (x : ℕ) → bit_and x 0xff ≡ x % 2 ^ 8
low8 x =
    ap (λ t. bit_and t 0xff) (let e : x ≡ x / 2 ^ 8 * 2 ^ 8 + x % 2 ^ 8 = omega arith in e)
    ∙ bit_and_mask 8 (x / 2 ^ 8) (x % 2 ^ 8) (omega arith)

pair_as_sum : (a b : ℕ) → a < 256 → b < 256 → bit_or a (u32 (b <<< 8)) ≡ b * 2 ^ 8 + a
pair_as_sum a b ha hb =
    ap (bit_or a) (let e : u32 (b <<< 8) ≡ b * 2 ^ 8 = omega arith in e) ∙ bit_or_disjoint 8 b a ha

pair_join :
    (x : ℕ)
    → x < 2 ^ 16
    → bit_or (u8 (bit_and x 0xff)) (u32 (u8 (bit_and (x >>> 8) 0xff) <<< 8)) ≡ x
pair_join x h =
    pair_as_sum (u8 (bit_and x 0xff)) (u8 (bit_and (x >>> 8) 0xff)) (omega arith) (omega arith)
    ∙ omega (arith, low8 x, low8 (x >>> 8))

pair_low : (a b : ℕ) → a < 256 → b < 256 → u8 (bit_and (bit_or a (u32 (b <<< 8))) 0xff) ≡ a
pair_low a b ha hb = omega (arith, low8 (bit_or a (u32 (b <<< 8))), pair_as_sum a b ha hb)

pair_high : (a b : ℕ) → a < 256 → b < 256 → u8 (bit_and (bit_or a (u32 (b <<< 8)) >>> 8) 0xff) ≡ b
pair_high a b ha hb = omega (arith, low8 (bit_or a (u32 (b <<< 8)) >>> 8), pair_as_sum a b ha hb)

load-store : (x : Words) → IsFit x → load_block (store_block x) ≡ x
unfolding load_block store_block
load-store x f =
    words_eq _ x (pair_join x.x0 f.fit0) (pair_join x.x1 f.fit1) (pair_join x.x2 f.fit2)
      (pair_join x.x3 f.fit3)

abbrev pub IsBlock : List ℕ → Type 0
IsBlock b = (length b ≡ 8) × Below 256 b

module _ (b0 b1 b2 b3 b4 b5 b6 b7 : ℕ) where
  abbrev eight : List ℕ
  eight = b0 ∷ b1 ∷ b2 ∷ b3 ∷ b4 ∷ b5 ∷ b6 ∷ b7 ∷ []

  load_eight-IsFit : Below 256 eight → IsFit (load_block eight)
  unfolding load_block
  load_eight-IsFit h = record {
    fit0 = omega (arith, pair_as_sum b0 b1 h.0 h.1.0);
    fit1 = omega (arith, pair_as_sum b2 b3 h.1.1.0 h.1.1.1.0);
    fit2 = omega (arith, pair_as_sum b4 b5 h.1.1.1.1.0 h.1.1.1.1.1.0);
    fit3 = omega (arith, pair_as_sum b6 b7 h.1.1.1.1.1.1.0 h.1.1.1.1.1.1.1.0);
  }

  store-load_eight : Below 256 eight → store_block (load_block eight) ≡ eight
  unfolding load_block store_block
  store-load_eight h = rw (
    pair_low b0 b1 h.0 h.1.0,
    pair_high b0 b1 h.0 h.1.0,
    pair_low b2 b3 h.1.1.0 h.1.1.1.0,
    pair_high b2 b3 h.1.1.0 h.1.1.1.0,
    pair_low b4 b5 h.1.1.1.1.0 h.1.1.1.1.1.0,
    pair_high b4 b5 h.1.1.1.1.0 h.1.1.1.1.1.0,
    pair_low b6 b7 h.1.1.1.1.1.1.0 h.1.1.1.1.1.1.1.0,
    pair_high b6 b7 h.1.1.1.1.1.1.0 h.1.1.1.1.1.1.1.0,
  )

-- A block of eight bytes, given by its bytes.
of_eight :
    (P : List ℕ → Type 0)
    → ((b0 b1 b2 b3 b4 b5 b6 b7 : ℕ)
        → Below 256 (eight b0 b1 b2 b3 b4 b5 b6 b7)
        → P (eight b0 b1 b2 b3 b4 b5 b6 b7))
    → (b : List ℕ) → IsBlock b
    → P b
of_eight P k [] h = absurd (omega arith)
of_eight P k (b0 ∷ []) h = absurd (omega arith)
of_eight P k (b0 ∷ b1 ∷ []) h = absurd (omega arith)
of_eight P k (b0 ∷ b1 ∷ b2 ∷ []) h = absurd (omega arith)
of_eight P k (b0 ∷ b1 ∷ b2 ∷ b3 ∷ []) h = absurd (omega arith)
of_eight P k (b0 ∷ b1 ∷ b2 ∷ b3 ∷ b4 ∷ []) h = absurd (omega arith)
of_eight P k (b0 ∷ b1 ∷ b2 ∷ b3 ∷ b4 ∷ b5 ∷ []) h = absurd (omega arith)
of_eight P k (b0 ∷ b1 ∷ b2 ∷ b3 ∷ b4 ∷ b5 ∷ b6 ∷ []) h = absurd (omega arith)
of_eight P k (b0 ∷ b1 ∷ b2 ∷ b3 ∷ b4 ∷ b5 ∷ b6 ∷ b7 ∷ []) h = k b0 b1 b2 b3 b4 b5 b6 b7 h.1
of_eight P k (b0 ∷ b1 ∷ b2 ∷ b3 ∷ b4 ∷ b5 ∷ b6 ∷ b7 ∷ b8 ∷ r) h = absurd (omega arith)

load-IsFit : (b : List ℕ) → IsBlock b → IsFit (load_block b)
load-IsFit = of_eight (λ b. IsFit (load_block b)) load_eight-IsFit

store-load : (b : List ℕ) → IsBlock b → store_block (load_block b) ≡ b
store-load = of_eight (λ b. store_block (load_block b) ≡ b) store-load_eight

pub encrypt_block-IsBlock : (key b : List ℕ) → IsBlock (encrypt_block key b)
unfolding encrypt_block store_block
encrypt_block-IsBlock key b = (refl, omega arith)

-- For every key, decrypting an encrypted block of eight bytes gives the block back.
pub decrypt_block-encrypt_block :
    (key b : List ℕ) → IsBlock b → decrypt_block key (encrypt_block key b) ≡ b
decrypt_block-encrypt_block key b h =
    unfold decrypt_block encrypt_block in
    ap (λ x. store_block (decrypt_loop key 16 60 3 5 (load_block (store_block x))))
      (encrypt_loop-run key (load_block b))
    ∙ ap (λ x. store_block (decrypt_loop key 16 60 3 5 x))
        (load-store (run key schedule (load_block b)) (run-IsFit key schedule _ (load-IsFit b h)))
    ∙ ap store_block (decrypt_loop-run_back key (run key schedule (load_block b)))
    ∙ ap store_block (run_back-run key schedule (load_block b) (load-IsFit b h))
    ∙ store-load b h
