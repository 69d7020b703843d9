-- ===== src/Base/Bits.antt =====
-- Laws of `^`, `|` and `&` at every width: each is reduced to its lowest digit and the halves.
use Prim.Native.Nat.{ℕ, zero, suc, ◌+◌, ◌-◌, ◌*◌, ◌/◌, ◌%◌, ◌^◌, ◌≤◌, ◌<◌, min, max}
use Prim.Native.Nat.{bit_and, bit_or, bit_xor, digits, bitwise, differ}
use Prim.Native.Nat.{bit_and-bitwise, bit_or-bitwise, bit_xor-bitwise}
use mathlib.Core.Path.{◌≡◌, refl, sym, ap, ap₂, ◌∙◌}
use native.Mathlib.Nat.{pow-suc, one-le-pow}
use native.Mathlib.Omega.{arith}

-- An operation that is given by its digits: one more unit of fuel than the number is wide is not
-- read, so the lowest digit and the halves determine the whole.
module _ (z : ℕ → ℕ) (f : ℕ → ℕ → ℕ) where
  spare_fuel : (n x y : ℕ) → x ≤ n → digits z f (suc n) x y ≡ digits z f n x y
  spare_fuel zero zero y _ = refl
  spare_fuel (suc n) zero y _ = refl
  spare_fuel zero (suc x) y fits = absurd (omega arith)
  spare_fuel (suc n) (suc x) y fits =
      ap (λ (t : ℕ). t * 2 + f (suc x % 2) (y % 2)) (spare_fuel n (suc x / 2) (y / 2) (omega arith))

  all_spare_fuel : (k x y : ℕ) → digits z f (k + x) x y ≡ digits z f x x y
  all_spare_fuel zero x y = ap (λ (n : ℕ). digits z f n x y) (let e : 0 + x ≡ x = omega arith in e)
  all_spare_fuel (suc k) x y =
      ap (λ (n : ℕ). digits z f n x y) (let e : suc k + x ≡ suc (k + x) = omega arith in e)
      ∙ spare_fuel (k + x) x y (omega arith)
      ∙ all_spare_fuel k x y

  module _ (op : ℕ → ℕ → ℕ) (meaning : (x y : ℕ) → op x y ≡ bitwise z f x y)
      (base : (y : ℕ) → z y ≡ 2 * z (y / 2) + f 0 (y % 2)) where
    lowest_digit : (x y : ℕ) → op x y ≡ 2 * op (x / 2) (y / 2) + f (x % 2) (y % 2)
    lowest_digit zero y = omega (arith, meaning 0 y, meaning 0 (y / 2), base y)
    lowest_digit (suc x) y = omega (
      arith,
      meaning (suc x) y,
      meaning (suc x / 2) (y / 2),
      all_spare_fuel (x - suc x / 2) (suc x / 2) (y / 2),
      ap (λ (n : ℕ). digits z f n (suc x / 2) (y / 2))
          (let e : x - suc x / 2 + suc x / 2 ≡ x = omega arith in e),
    )

-- A symmetric rule for a digit makes a symmetric operation.
module _ (f op : ℕ → ℕ → ℕ) (symmetric : (x y : ℕ) → f x y ≡ f y x)
    (low : (x y : ℕ) → op x y ≡ 2 * op (x / 2) (y / 2) + f (x % 2) (y % 2)) where
  swapped_fuel : (n x y : ℕ) → x ≤ n → y ≤ n → op x y ≡ op y x
  swapped_fuel zero zero zero _ _ = refl
  swapped_fuel zero zero (suc y) _ fits = absurd (omega arith)
  swapped_fuel zero (suc x) y fits _ = absurd (omega arith)
  swapped_fuel (suc n) x y p q = omega (
    arith,
    low x y,
    low y x,
    symmetric (x % 2) (y % 2),
    swapped_fuel n (x / 2) (y / 2) (omega arith) (omega arith),
  )

  swapped : (x y : ℕ) → op x y ≡ op y x
  swapped x y = swapped_fuel (x + y) x y (omega arith) (omega arith)

differ_of_bits : (x y : ℕ) → x < 2 → y < 2 → differ x y ≡ (x + y) % 2
differ_of_bits zero y p q = omega arith
differ_of_bits (suc zero) zero p q = refl
differ_of_bits (suc zero) (suc zero) p q = refl
differ_of_bits (suc zero) (suc (suc y)) p q = absurd (omega arith)
differ_of_bits (suc (suc x)) y p q = absurd (omega arith)

zero-bit_xor : (b : ℕ) → bit_xor 0 b ≡ b
zero-bit_xor b = bit_xor-bitwise 0 b

zero-bit_or : (b : ℕ) → bit_or 0 b ≡ b
zero-bit_or b = bit_or-bitwise 0 b

zero-bit_and : (b : ℕ) → bit_and 0 b ≡ 0
zero-bit_and b = bit_and-bitwise 0 b

pub halves-bit_xor : (x y : ℕ) → bit_xor x y ≡ 2 * bit_xor (x / 2) (y / 2) + (x % 2 + y % 2) % 2
halves-bit_xor x y = omega (
  arith,
  lowest_digit (λ y. y) differ bit_xor bit_xor-bitwise bits_apart x y,
  differ_of_bits (x % 2) (y % 2) (omega arith) (omega arith),
)
  where
    bits_apart : (y : ℕ) → y ≡ 2 * (y / 2) + differ 0 (y % 2)
    bits_apart y = omega (arith, differ_of_bits 0 (y % 2) (omega arith) (omega arith))

pub halves-bit_or : (x y : ℕ) → bit_or x y ≡ 2 * bit_or (x / 2) (y / 2) + max (x % 2) (y % 2)
halves-bit_or = lowest_digit (λ y. y) max bit_or bit_or-bitwise (λ y. omega arith)

pub halves-bit_and : (x y : ℕ) → bit_and x y ≡ 2 * bit_and (x / 2) (y / 2) + min (x % 2) (y % 2)
halves-bit_and = lowest_digit (λ y. 0) min bit_and bit_and-bitwise (λ y. omega arith)

-- The three operations are symmetric.
pub bit_xor_comm : (a b : ℕ) → bit_xor a b ≡ bit_xor b a
bit_xor_comm = swapped (λ x y. (x + y) % 2) bit_xor (λ x y. omega arith) halves-bit_xor

pub bit_or_comm : (a b : ℕ) → bit_or a b ≡ bit_or b a
bit_or_comm = swapped max bit_or (λ x y. omega arith) halves-bit_or

bit_and_comm : (a b : ℕ) → bit_and a b ≡ bit_and b a
bit_and_comm = swapped min bit_and (λ x y. omega arith) halves-bit_and

bit_and-zero : (a : ℕ) → bit_and a 0 ≡ 0
bit_and-zero a = bit_and_comm a 0 ∙ zero-bit_and a

pub bit_xor-zero : (a : ℕ) → bit_xor a 0 ≡ a
bit_xor-zero a = bit_xor_comm a 0 ∙ zero-bit_xor a

-- Inductions on the number of halvings, `n`, that bring the first number to 0.
xor_cancel_fuel : (n a b : ℕ) → a ≤ n → bit_xor (bit_xor b a) a ≡ b
xor_cancel_fuel zero zero b h = bit_xor-zero (bit_xor b 0) ∙ bit_xor-zero b
xor_cancel_fuel zero (suc a) b h = absurd (omega arith)
xor_cancel_fuel (suc n) a b h = omega (
  arith,
  halves-bit_xor b a,
  halves-bit_xor (bit_xor b a) a,
  ap (λ (t : ℕ). bit_xor t (a / 2)) halves,
  xor_cancel_fuel n (a / 2) (b / 2) (omega arith),
)
  where
    halves : bit_xor b a / 2 ≡ bit_xor (b / 2) (a / 2)
    halves = omega (arith, halves-bit_xor b a)

-- `^` with the same number twice gives the first number back.
pub bit_xor-cancel : (a b : ℕ) → bit_xor (bit_xor b a) a ≡ b
bit_xor-cancel a b = xor_cancel_fuel a a b (omega arith)

pub bit_xor_self : (a : ℕ) → bit_xor a a ≡ 0
bit_xor_self a = ap (λ t. bit_xor t a) (sym (zero-bit_xor a)) ∙ bit_xor-cancel a 0

-- `^` is 0 only at equal numbers.
pub eq_of_bit_xor : (a b : ℕ) → bit_xor a b ≡ 0 → a ≡ b
eq_of_bit_xor a b e = sym (bit_xor-cancel b a) ∙ ap (λ t. bit_xor t b) e ∙ zero-bit_xor b

pub bit_xor-left_cancel : (a b : ℕ) → bit_xor a (bit_xor a b) ≡ b
bit_xor-left_cancel a b =
    bit_xor_comm a (bit_xor a b) ∙ ap (λ t. bit_xor t a) (bit_xor_comm a b) ∙ bit_xor-cancel a b

bit_or-zero_fuel : (n a b : ℕ) → a ≤ n → bit_or a b ≡ 0 → (a ≡ 0) × (b ≡ 0)
bit_or-zero_fuel n zero b h e = (refl, sym (zero-bit_or b) ∙ e)
bit_or-zero_fuel zero (suc a) b h e = absurd (omega arith)
bit_or-zero_fuel (suc n) (suc a) b h e =
    let below =
      bit_or-zero_fuel n (suc a / 2) (b / 2) (omega arith)
        (omega (arith, halves-bit_or (suc a) b)) in
    omega (arith, below, halves-bit_or (suc a) b)

-- `|` is 0 only where both numbers are.
pub zeros_of_bit_or : (a b : ℕ) → bit_or a b ≡ 0 → (a ≡ 0) × (b ≡ 0)
zeros_of_bit_or a b e = bit_or-zero_fuel a a b (omega arith) e

-- The results stay in the width of the arguments.
pub bit_xor-lt : (k a b : ℕ) → a < 2 ^ k → b < 2 ^ k → bit_xor a b < 2 ^ k
bit_xor-lt zero a b p q =
    rw ((let e : a ≡ 0 = omega arith in e), (let e : b ≡ 0 = omega arith in e)) (omega arith)
bit_xor-lt (suc k) a b p q = omega (
  arith,
  pow-suc 2 k,
  halves-bit_xor a b,
  bit_xor-lt k (a / 2) (b / 2) (omega (arith, pow-suc 2 k)) (omega (arith, pow-suc 2 k)),
)

pub bit_or-lt : (k a b : ℕ) → a < 2 ^ k → b < 2 ^ k → bit_or a b < 2 ^ k
bit_or-lt zero a b p q =
    rw ((let e : a ≡ 0 = omega arith in e), (let e : b ≡ 0 = omega arith in e)) (omega arith)
bit_or-lt (suc k) a b p q = omega (
  arith,
  pow-suc 2 k,
  halves-bit_or a b,
  bit_or-lt k (a / 2) (b / 2) (omega (arith, pow-suc 2 k)) (omega (arith, pow-suc 2 k)),
)

-- `|` of numbers whose digits do not overlap is their sum.
pub bit_or_disjoint : (k q r : ℕ) → r < 2 ^ k → bit_or r (q * 2 ^ k) ≡ q * 2 ^ k + r
bit_or_disjoint zero q r h = let e : r ≡ 0 = omega arith in rw (e, zero-bit_or) (omega arith)
bit_or_disjoint (suc k) q r h = omega (
  arith,
  halves-bit_or r (q * 2 ^ suc k),
  shifted,
  ap (λ (t : ℕ). bit_or (r / 2) t)
      (let e : q * 2 ^ suc k / 2 ≡ q * 2 ^ k = omega (arith, shifted) in e),
  bit_or_disjoint k q (r / 2) (omega (arith, pow-suc 2 k)),
)
  where
    shifted : q * 2 ^ suc k ≡ 2 * (q * 2 ^ k)
    shifted = omega (arith, ap (λ (t : ℕ). q * t) (pow-suc 2 k))

-- `&` with a mask of low digits is a remainder.
pub mask_one : (a : ℕ) → bit_and a 1 ≡ a % 2
mask_one a = omega (arith, halves-bit_and a 1, bit_and-zero (a / 2))

pub bit_and_seven : (a : ℕ) → bit_and a 7 ≡ a % 8
bit_and_seven a =
    let two : bit_and (a / 2) 3 ≡ a / 2 % 4 =
      omega (arith, halves-bit_and (a / 2) 3, mask_one (a / 2 / 2)) in
    omega (arith, halves-bit_and a 7, two)

-- `&` with a mask of `k` ones keeps the `k` low digits.
pub bit_and_mask : (k q r : ℕ) → r < 2 ^ k → bit_and (q * 2 ^ k + r) (2 ^ k - 1) ≡ r
bit_and_mask zero q r h = bit_and-zero (q * 1 + r) ∙ (let e : 0 ≡ r = omega arith in e)
bit_and_mask (suc k) q r h = omega (
  arith,
  halves-bit_and (q * 2 ^ suc k + r) (2 ^ suc k - 1),
  shifted,
  pow-suc 2 k,
  one-le-pow k 2,
  ap₂ bit_and halves mask,
  bit_and_mask k q (r / 2) (omega (arith, pow-suc 2 k)),
)
  where
    shifted : q * 2 ^ suc k ≡ 2 * (q * 2 ^ k)
    shifted = omega (arith, ap (λ (t : ℕ). q * t) (pow-suc 2 k))

    halves : (q * 2 ^ suc k + r) / 2 ≡ q * 2 ^ k + r / 2
    halves = omega (arith, shifted)

    mask : (2 ^ suc k - 1) / 2 ≡ 2 ^ k - 1
    mask = omega (arith, pow-suc 2 k, one-le-pow k 2)
