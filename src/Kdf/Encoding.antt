-- ===== src/Kdf/Encoding.antt =====
-- `put_be` writes a number in as few bytes as it needs, highest first.
use libpogost.Base.{
  ℕ, zero, suc, ◌+◌, ◌*◌, ◌/◌, ◌%◌, ◌^◌, ◌≤◌, ◌<◌, bit_and, ◌≡◌, ap, ◌∙◌, ◌⊎◌, refl, inl, inr, List,
  [], ◌∷◌, arith, ◌==◌, Bool-cases, length, Below, ◌>>>◌, bit_and_mask, byte_at,
}
use libpogost.Kdf.{put_be_loop, put_be}

-- The number that bytes stand for, highest first, behind the digits of `acc`.
abbrev pub read_be : ℕ → List ℕ → ℕ
read_be acc [] = acc
read_be acc (x ∷ xs) = read_be (acc * 256 + x) xs

pub low_byte : (v : ℕ) → bit_and v 0xff ≡ v % 256
low_byte v =
    ap (λ t. bit_and t 0xff) (let e : v ≡ v / 2 ^ 8 * 2 ^ 8 + v % 2 ^ 8 = omega arith in e)
    ∙ bit_and_mask 8 (v / 2 ^ 8) (v % 2 ^ 8) (omega arith)

-- Bytes that need `n` digits.
abbrev room : ℕ → ℕ
room zero = 1
room (suc n) = 256 * room n

record Written (fuel v : ℕ) (acc r : List ℕ) : Type 0 where
  value : read_be 0 r ≡ read_be v acc
  size : length r ≤ length acc + fuel
  leading : 0 < v → 0 < byte_at r 0
  fits : Below 256 acc → Below 256 r

-- The last byte, when no higher digit is left.
Written-last : (n v : ℕ) (acc : List ℕ) → v / 256 ≡ 0 → Written (suc n) v acc (bit_and v 0xff ∷ acc)
Written-last n v acc e = record {
  value = ap (λ t. read_be t acc) (omega (arith, low_byte v));
  size = omega arith;
  leading = λ p. omega (arith, low_byte v);
  fits = λ p. (omega (arith, low_byte v), p);
}

-- One more digit in front of the later ones.
Written-more :
    (n v : ℕ) (acc r : List ℕ)
    → 0 < v / 256
    → Written n (v / 256) (bit_and v 0xff ∷ acc) r
    → Written (suc n) v acc r
Written-more n v acc r p w = record {
  value = w.value ∙ ap (λ t. read_be t acc) (omega (arith, low_byte v));
  size = omega (arith, w.size);
  leading = λ q. w.leading p;
  fits = λ q. w.fits (omega (arith, low_byte v), q);
}

put_be_loop-Written :
    (n v : ℕ) (acc : List ℕ) → v < room (suc n) → Written (suc n) v acc (put_be_loop (suc n) v acc)
unfolding put_be_loop
put_be_loop-Written zero v acc h = elim (Bool-cases (v >>> 8 == 0)) [
  | inl e ↦ rw e (Written-last 0 v acc (ground arith))
  | inr e ↦ absurd (ground arith)
]
put_be_loop-Written (suc n) v acc h = elim (Bool-cases (v >>> 8 == 0)) [
  | inl e ↦ rw e (Written-last (suc n) v acc (ground arith))
  | inr e ↦ rw e (
      Written-more (suc n) v acc _ (ground arith)
        (put_be_loop-Written n (v / 256) (bit_and v 0xff ∷ acc) (omega arith)))
]

zero_or : (v n : ℕ) → (0 < v → 0 < n) → (v ≡ 0) ⊎ (0 < n)
zero_or zero n f = inl refl
zero_or (suc v) n f = inr (f (omega arith))

-- For every `size_t`, `put_be` writes at most eight bytes, which read as that number, highest
-- byte first; no byte but that of 0 itself is a leading zero.
read_be-put_be :
    (v : ℕ)
    → v < 2 ^ 64
    → (read_be 0 (put_be v) ≡ v)
      × (length (put_be v) ≤ 8)
      × Below 256 (put_be v)
      × ((v ≡ 0) ⊎ (0 < byte_at (put_be v) 0))
unfolding put_be
read_be-put_be v h =
    let w = put_be_loop-Written 7 v [] (omega arith) in
    (w.value, w.size, w.fits tt, zero_or v (byte_at (put_be_loop 8 v []) 0) w.leading)
