-- ===== src/Base/Bytes.antt =====
-- Byte order, `^` over buffers, and comparison in constant time: `get_unaligned_le32` and its
-- neighbours of src/kernel_compat.h, which the other files repeat as static functions.
use Prim.Native.Nat.{ℕ, zero, suc, ◌+◌, ◌-◌, ◌*◌, ◌^◌, ◌≤◌, ◌<◌, min}
use Prim.Native.Nat.{bit_or, bit_xor}
use mathlib.Core.Path.{◌≡◌, refl, ap, ap₂, ◌∙◌}
use mathlib.Core.Bool.{Bool, true}
use mathlib.Core.List.{List, [], ◌∷◌, ◌++◌}
use native.Mathlib.Omega.{arith}
use libpogost.Base.Tests.{◌==◌, ==_iff}
use libpogost.Base.Lists.{length, get_or, take, Below}
use libpogost.Base.Word.{u8, u32, ◌<<<◌, ◌>>>◌}
use libpogost.Base.Bits.{
  bit_or_disjoint, bit_xor-cancel, bit_xor-lt, eq_of_bit_xor, zeros_of_bit_or, bit_xor_self,
}

abbrev pub byte_at : List ℕ → ℕ → ℕ
byte_at b i = get_or b i 0

pub byte_at_past : (xs : List ℕ) (pos : ℕ) → length xs ≤ pos → byte_at xs pos ≡ 0
byte_at_past [] pos h = refl
byte_at_past (x ∷ xs) zero h = absurd (omega arith)
byte_at_past (x ∷ xs) (suc pos) h = byte_at_past xs pos (omega arith)

pub byte_at-append_left :
    (a b : List ℕ) (pos : ℕ) → pos < length a → byte_at (a ++ b) pos ≡ byte_at a pos
byte_at-append_left [] b pos h = absurd (omega arith)
byte_at-append_left (x ∷ a) b zero h = refl
byte_at-append_left (x ∷ a) b (suc pos) h = byte_at-append_left a b pos (omega arith)

pub byte_at-append_right :
    (a b : List ℕ) (pos : ℕ) → length a ≤ pos → byte_at (a ++ b) pos ≡ byte_at b (pos - length a)
byte_at-append_right [] b pos h = let e : pos ≡ pos - 0 = omega arith in ap (λ k. byte_at b k) e
byte_at-append_right (x ∷ a) b zero h = absurd (omega arith)
byte_at-append_right (x ∷ a) b (suc pos) h =
    let e : pos - length a ≡ suc pos - suc (length a) = omega arith in
    byte_at-append_right a b pos (omega arith) ∙ ap (λ k. byte_at b k) e

unfoldable pub get_le32 : List ℕ → ℕ
get_le32 b =
    bit_or (bit_or (bit_or (byte_at b 0) (u32 (byte_at b 1 <<< 8))) (u32 (byte_at b 2 <<< 16)))
      (u32 (byte_at b 3 <<< 24))

unfoldable pub put_le32 : ℕ → List ℕ
put_le32 v = u8 v ∷ u8 (v >>> 8) ∷ u8 (v >>> 16) ∷ u8 (v >>> 24) ∷ []

-- The bytes as digits of a number.
le32_as_sum :
    (a b c d : ℕ) (r : List ℕ)
    → a < 256
    → b < 256
    → c < 256
    → d < 256
    → get_le32 (a ∷ b ∷ c ∷ d ∷ r) ≡ a + 256 * b + 65536 * c + 16777216 * d
unfolding get_le32
le32_as_sum a b c d r ha hb hc hd =
    let e1 : u32 (b <<< 8) ≡ b * 2 ^ 8 = omega arith in
    let e2 : u32 (c <<< 16) ≡ c * 2 ^ 16 = omega arith in
    let e3 : u32 (d <<< 24) ≡ d * 2 ^ 24 = omega arith in
    rw
      (
        e1,
        e2,
        e3,
        bit_or_disjoint 8 b a ha,
        bit_or_disjoint 16 c (b * 2 ^ 8 + a) (omega arith),
        bit_or_disjoint 24 d (c * 2 ^ 16 + (b * 2 ^ 8 + a)) (omega arith),
      )
      (omega arith)

pub put_le32-lt : (v : ℕ) → Below 256 (put_le32 v)
unfolding put_le32
put_le32-lt v = omega arith

pub get_le32-put_le32 : (v : ℕ) (r : List ℕ) → v < 2 ^ 32 → get_le32 (put_le32 v ++ r) ≡ v
unfolding put_le32
get_le32-put_le32 v r h =
    le32_as_sum (u8 v) (u8 (v >>> 8)) (u8 (v >>> 16)) (u8 (v >>> 24)) r (omega arith) (omega arith)
      (omega arith) (omega arith)
    ∙ (let e : u8 v + 256 * u8 (v >>> 8) + 65536 * u8 (v >>> 16) + 16777216 * u8 (v >>> 24) ≡ v =
          omega arith in
        e)

pub put_le32-get_le32 : (b : List ℕ) → 4 ≤ length b → Below 256 b → put_le32 (get_le32 b) ≡ take 4 b
put_le32-get_le32 [] l h = absurd (omega arith)
put_le32-get_le32 (x0 ∷ []) l h = absurd (omega arith)
put_le32-get_le32 (x0 ∷ x1 ∷ []) l h = absurd (omega arith)
put_le32-get_le32 (x0 ∷ x1 ∷ x2 ∷ []) l h = absurd (omega arith)
put_le32-get_le32 (x0 ∷ x1 ∷ x2 ∷ x3 ∷ r) l h =
    rw (le32_as_sum x0 x1 x2 x3 r (omega arith) (omega arith) (omega arith) (omega arith)) digits
  where
    digits : put_le32 (x0 + 256 * x1 + 65536 * x2 + 16777216 * x3) ≡ x0 ∷ x1 ∷ x2 ∷ x3 ∷ []
    digits = unfold put_le32 in ground arith

pub get_le32-lt : (b : List ℕ) → 4 ≤ length b → Below 256 b → get_le32 b < 2 ^ 32
get_le32-lt [] l h = absurd (omega arith)
get_le32-lt (x0 ∷ []) l h = absurd (omega arith)
get_le32-lt (x0 ∷ x1 ∷ []) l h = absurd (omega arith)
get_le32-lt (x0 ∷ x1 ∷ x2 ∷ []) l h = absurd (omega arith)
get_le32-lt (x0 ∷ x1 ∷ x2 ∷ x3 ∷ r) l h =
    omega (arith, le32_as_sum x0 x1 x2 x3 r (omega arith) (omega arith) (omega arith) (omega arith))

-- `out[i] = a[i] ^ b[i]` for as many bytes as both have: `crypto_xor_cpy`.
abbrev pub xor_bytes : List ℕ → List ℕ → List ℕ
xor_bytes [] ys = []
xor_bytes (x ∷ xs) [] = []
xor_bytes (x ∷ xs) (y ∷ ys) = bit_xor x y ∷ xor_bytes xs ys

pub length-xor_bytes : (xs ys : List ℕ) → length (xor_bytes xs ys) ≡ min (length xs) (length ys)
length-xor_bytes [] ys = omega arith
length-xor_bytes (x ∷ xs) [] = omega arith
length-xor_bytes (x ∷ xs) (y ∷ ys) = omega (arith, length-xor_bytes xs ys)

pub xor_bytes-cancel :
    (xs ys : List ℕ) → length xs ≤ length ys → xor_bytes (xor_bytes xs ys) ys ≡ xs
xor_bytes-cancel [] ys h = refl
xor_bytes-cancel (x ∷ xs) [] h = absurd (omega arith)
xor_bytes-cancel (x ∷ xs) (y ∷ ys) h =
    ap₂ ◌∷◌ (bit_xor-cancel y x) (xor_bytes-cancel xs ys (omega arith))

pub xor_bytes-Below :
    (k : ℕ) (xs ys : List ℕ) → Below (2 ^ k) xs → Below (2 ^ k) ys → Below (2 ^ k) (xor_bytes xs ys)
xor_bytes-Below k [] ys p q = tt
xor_bytes-Below k (x ∷ xs) [] p q = tt
xor_bytes-Below k (x ∷ xs) (y ∷ ys) p q =
    (bit_xor-lt k x y p.0 q.0, xor_bytes-Below k xs ys p.1 q.1)

-- `diff |= a[i] ^ b[i]` over both buffers: the loop of `pogost_memeq`, `secure_equal` and
-- `crypto_memneq`.
unfoldable pub diff_bytes : ℕ → List ℕ → List ℕ → ℕ
diff_bytes d [] ys = d
diff_bytes d (x ∷ xs) [] = d
diff_bytes d (x ∷ xs) (y ∷ ys) = diff_bytes (bit_or d (bit_xor x y)) xs ys

unfoldable pub memeq : List ℕ → List ℕ → Bool
memeq xs ys = diff_bytes 0 xs ys == 0

diff_bytes-eq_zero :
    (d : ℕ) (xs ys : List ℕ) → length xs ≡ length ys → diff_bytes d xs ys ≡ 0 → (d ≡ 0) × (xs ≡ ys)
unfolding diff_bytes
diff_bytes-eq_zero d [] [] l e = (e, refl)
diff_bytes-eq_zero d [] (y ∷ ys) l e = absurd (omega arith)
diff_bytes-eq_zero d (x ∷ xs) [] l e = absurd (omega arith)
diff_bytes-eq_zero d (x ∷ xs) (y ∷ ys) l e =
    let rest = diff_bytes-eq_zero (bit_or d (bit_xor x y)) xs ys (omega arith) e in
    let zeros = zeros_of_bit_or d (bit_xor x y) rest.0 in
    (zeros.0, ap₂ ◌∷◌ (eq_of_bit_xor x y zeros.1) rest.1)

diff_bytes_self : (xs : List ℕ) → diff_bytes 0 xs xs ≡ 0
unfolding diff_bytes
diff_bytes_self [] = refl
diff_bytes_self (x ∷ xs) =
    ap (λ t. diff_bytes (bit_or 0 t) xs xs) (bit_xor_self x) ∙ diff_bytes_self xs

pub memeq_self : (xs : List ℕ) → memeq xs xs ≡ true
unfolding memeq
memeq_self xs = (==_iff _ _).1 (diff_bytes_self xs)

pub eq_of_memeq : (xs ys : List ℕ) → length xs ≡ length ys → memeq xs ys ≡ true → xs ≡ ys
unfolding memeq
eq_of_memeq xs ys l e = (diff_bytes-eq_zero 0 xs ys l ((==_iff _ _).0 e)).1
