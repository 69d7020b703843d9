-- ===== src/Base/Xor.antt =====
-- More laws of `^`: association, and numbers made of two halves.
use Prim.Native.Nat.{ℕ, zero, suc, ◌+◌, ◌*◌, ◌/◌, ◌^◌, ◌≤◌, ◌<◌, bit_xor}
use mathlib.Core.Path.{◌≡◌, sym, ap, ap₂, ◌∙◌}
use native.Mathlib.Nat.{pow-suc}
use native.Mathlib.Omega.{arith}
use libpogost.Base.Bits.{halves-bit_xor, bit_xor_comm, bit_xor-zero}

assoc_fuel : (n a b c : ℕ) → a ≤ n → bit_xor (bit_xor a b) c ≡ bit_xor a (bit_xor b c)
assoc_fuel zero a b c h =
    let e : a ≡ 0 = omega arith in
    let z = (λ (x : ℕ). bit_xor_comm 0 x ∙ bit_xor-zero x) in
    rw e (ap (λ (t : ℕ). bit_xor t c) (z b) ∙ sym (z (bit_xor b c)))
assoc_fuel (suc n) a b c h =
    let left : bit_xor a b / 2 ≡ bit_xor (a / 2) (b / 2) = omega (arith, halves-bit_xor a b) in
    let right : bit_xor b c / 2 ≡ bit_xor (b / 2) (c / 2) = omega (arith, halves-bit_xor b c) in
    omega (
      arith,
      halves-bit_xor a b,
      halves-bit_xor b c,
      halves-bit_xor (bit_xor a b) c,
      halves-bit_xor a (bit_xor b c),
      ap (λ (t : ℕ). bit_xor t (c / 2)) left,
      ap (λ (t : ℕ). bit_xor (a / 2) t) right,
      assoc_fuel n (a / 2) (b / 2) (c / 2) (omega arith),
    )

pub bit_xor_assoc : (a b c : ℕ) → bit_xor (bit_xor a b) c ≡ bit_xor a (bit_xor b c)
bit_xor_assoc a b c = assoc_fuel a a b c (omega arith)

-- `^` works on each half.
pub bit_xor-halves :
    (k g h a b : ℕ)
    → a < 2 ^ k
    → b < 2 ^ k
    → bit_xor (g * 2 ^ k + a) (h * 2 ^ k + b) ≡ bit_xor g h * 2 ^ k + bit_xor a b
bit_xor-halves zero g h a b p q =
    let e : a ≡ 0 = omega arith in
    let f : b ≡ 0 = omega arith in
    let i : g * 2 ^ 0 + 0 ≡ g = omega arith in
    let j : h * 2 ^ 0 + 0 ≡ h = omega arith in rw (e, f, i, j) (omega arith)
bit_xor-halves (suc k) g h a b p q =
    let w = pow-suc 2 k in
    let dg : g * 2 ^ suc k ≡ 2 * (g * 2 ^ k) = omega (arith, ap (λ (t : ℕ). g * t) w) in
    let dh : h * 2 ^ suc k ≡ 2 * (h * 2 ^ k) = omega (arith, ap (λ (t : ℕ). h * t) w) in
    let dx : bit_xor g h * 2 ^ suc k ≡ 2 * (bit_xor g h * 2 ^ k) =
      omega (arith, ap (λ (t : ℕ). bit_xor g h * t) w) in
    let eg : (g * 2 ^ suc k + a) / 2 ≡ g * 2 ^ k + a / 2 = omega (arith, dg) in
    let eh : (h * 2 ^ suc k + b) / 2 ≡ h * 2 ^ k + b / 2 = omega (arith, dh) in
    omega (
      arith,
      dg,
      dh,
      dx,
      halves-bit_xor (g * 2 ^ suc k + a) (h * 2 ^ suc k + b),
      halves-bit_xor a b,
      ap₂ (λ (s : ℕ) (t : ℕ). bit_xor s t) eg eh,
      bit_xor-halves k g h (a / 2) (b / 2) (omega (arith, w)) (omega (arith, w)),
    )

pub bit_xor_interchange :
    (a b c d : ℕ) → bit_xor (bit_xor a b) (bit_xor c d) ≡ bit_xor (bit_xor a c) (bit_xor b d)
bit_xor_interchange a b c d =
    bit_xor_assoc a b (bit_xor c d)
    ∙ ap (λ (t : ℕ). bit_xor a t)
        (sym (bit_xor_assoc b c d)
          ∙ ap (λ (t : ℕ). bit_xor t d) (bit_xor_comm b c)
          ∙ bit_xor_assoc c b d)
    ∙ sym (bit_xor_assoc a c (bit_xor b d))
