-- ===== src/KuznyechikModes/Mgm/Words.antt =====
-- Words of 64 bits in a block: what `get_be64` and `put_be64` read and write.
use libpogost.Base.{
  ℕ, zero, suc, ◌+◌, ◌-◌, ◌*◌, ◌/◌, ◌^◌, ◌≤◌, ◌<◌, bit_or, ◌≡◌, refl, ap, ◌∙◌, List, [], ◌∷◌, ◌++◌,
  arith, length, take, length-take, Below, Below-take, u64, ◌<<<◌, bit_or_disjoint, bit_or_comm,
}
use native.Mathlib.Nat.{pow-suc}
use libpogost.Kdf.{put_be64}
use libpogost.Kdf.Encoding.{read_be, low_byte}
use libpogost.KuznyechikModes.Mgm.{get_be64, get_be64_loop}

-- What fits in front of `left` more bytes stays below 2 ^ 64.
bound-suc :
    (left v b : ℕ)
    → left < 8
    → v < 2 ^ (64 - 8 * suc left)
    → b < 256
    → (v < 2 ^ 56) × (v * 256 + b < 2 ^ (64 - 8 * left))
bound-suc zero v b h p q = omega arith
bound-suc (suc zero) v b h p q = omega arith
bound-suc (suc (suc zero)) v b h p q = omega arith
bound-suc (suc (suc (suc zero))) v b h p q = omega arith
bound-suc (suc (suc (suc (suc zero)))) v b h p q = omega arith
bound-suc (suc (suc (suc (suc (suc zero))))) v b h p q = omega arith
bound-suc (suc (suc (suc (suc (suc (suc zero)))))) v b h p q = omega arith
bound-suc (suc (suc (suc (suc (suc (suc (suc zero))))))) v b h p q = omega arith
bound-suc (suc (suc (suc (suc (suc (suc (suc (suc left)))))))) v b h p q = absurd (omega arith)

shifted_in : (v b : ℕ) → v < 2 ^ 56 → b < 256 → bit_or (u64 (v <<< 8)) b ≡ v * 256 + b
shifted_in v b p q =
    let e : u64 (v <<< 8) ≡ v * 2 ^ 8 = omega arith in
    ap (λ t. bit_or t b) e ∙ bit_or_comm (v * 2 ^ 8) b ∙ bit_or_disjoint 8 v b q

get_be64_loop_lem :
    (left v : ℕ) (xs : List ℕ)
    → left ≤ 8
    → left ≡ length xs
    → v < 2 ^ (64 - 8 * left)
    → Below 256 xs
    → (get_be64_loop left v xs ≡ read_be v xs) × (read_be v xs < 2 ^ 64)
unfolding get_be64_loop
get_be64_loop_lem zero v [] h l p fits = (refl, omega arith)
get_be64_loop_lem zero v (x ∷ xs) h l p fits = absurd (omega arith)
get_be64_loop_lem (suc left) v [] h l p fits = absurd (omega arith)
get_be64_loop_lem (suc left) v (x ∷ xs) h l p fits =
    let b = bound-suc left v x (omega arith) p fits.0 in
    let ih = get_be64_loop_lem left (v * 256 + x) xs (omega arith) (omega arith) b.1 fits.1 in
    (ap (λ t. get_be64_loop left t xs) (shifted_in v x b.0 fits.0) ∙ ih.0, ih.1)

-- Only the first eight bytes count.
get_be64_loop-take :
    (left v : ℕ) (xs : List ℕ)
    → left ≤ length xs
    → get_be64_loop left v xs ≡ get_be64_loop left v (take left xs)
unfolding get_be64_loop
get_be64_loop-take zero v xs h = refl
get_be64_loop-take (suc left) v [] h = absurd (omega arith)
get_be64_loop-take (suc left) v (x ∷ xs) h =
    get_be64_loop-take left (bit_or (u64 (v <<< 8)) x) xs (omega arith)

pub get_be64_lem :
    (xs : List ℕ)
    → 8 ≤ length xs
    → Below 256 xs
    → (get_be64 xs ≡ read_be 0 (take 8 xs)) × (get_be64 xs < 2 ^ 64)
unfolding get_be64
get_be64_lem xs h fits =
    let r =
      get_be64_loop_lem 8 0 (take 8 xs) (omega arith) (omega (arith, length-take 8 xs))
        (omega arith) (Below-take 256 8 xs fits) in
    let e = get_be64_loop-take 8 0 xs h ∙ r.0 in (e, omega (arith, e, r.1))

pub length-put_be64 : (v : ℕ) → length (put_be64 v) ≡ 8
unfolding put_be64
length-put_be64 v = refl

pub read_be-put_be64 : (v : ℕ) → v < 2 ^ 64 → read_be 0 (put_be64 v) ≡ v
unfolding put_be64
read_be-put_be64 v h = omega (
  arith,
  low_byte v,
  low_byte (v / 2 ^ 8),
  low_byte (v / 2 ^ 8 / 2 ^ 8),
  low_byte (v / 2 ^ 8 / 2 ^ 8 / 2 ^ 8),
  low_byte (v / 2 ^ 8 / 2 ^ 8 / 2 ^ 8 / 2 ^ 8),
  low_byte (v / 2 ^ 8 / 2 ^ 8 / 2 ^ 8 / 2 ^ 8 / 2 ^ 8),
  low_byte (v / 2 ^ 8 / 2 ^ 8 / 2 ^ 8 / 2 ^ 8 / 2 ^ 8 / 2 ^ 8),
  low_byte (v / 2 ^ 8 / 2 ^ 8 / 2 ^ 8 / 2 ^ 8 / 2 ^ 8 / 2 ^ 8 / 2 ^ 8),
)

read_be-append : (acc : ℕ) (xs ys : List ℕ) → read_be acc (xs ++ ys) ≡ read_be (read_be acc xs) ys
read_be-append acc [] ys = refl
read_be-append acc (x ∷ xs) ys = read_be-append (acc * 256 + x) xs ys

-- A number and `n` more digits.
read_be_past : (acc : ℕ) (xs : List ℕ) → read_be acc xs ≡ acc * 256 ^ length xs + read_be 0 xs
read_be_past acc [] = omega arith
read_be_past acc (x ∷ xs) =
    let w = 256 ^ length xs in
    let more : acc * 256 ^ suc (length xs) ≡ acc * (w * 256) =
      ap (λ (t : ℕ). acc * t) (pow-suc 256 (length xs)) in
    let ring : (acc * 256 + x) * w ≡ acc * (w * 256) + x * w = grind arith in
    let z : 0 * 256 + x ≡ x = omega arith in
    let first : read_be 0 (x ∷ xs) ≡ x * w + read_be 0 xs =
      ap (λ (t : ℕ). read_be t xs) z ∙ read_be_past x xs in
    read_be_past (acc * 256 + x) xs ∙ omega (arith, more, ring, first)

-- The value of a block of two words.
pub read_be-halves :
    (xs ys : List ℕ) → length ys ≡ 8 → read_be 0 (xs ++ ys) ≡ read_be 0 xs * 2 ^ 64 + read_be 0 ys
read_be-halves xs ys h =
    read_be-append 0 xs ys
    ∙ read_be_past (read_be 0 xs) ys
    ∙ ap (λ n. read_be 0 xs * 256 ^ n + read_be 0 ys) h
