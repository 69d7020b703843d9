-- ===== src/Gost3410/Search.antt =====
-- Inverses and numbers of bits by search, as the tests of the signatures need them.
use libpogost.Base.{
  ℕ, zero, suc, ◌*◌, ◌/◌, ◌%◌, ◌^◌, ◌≤◌, ◌<◌, ◌≡◌, ap, ◌∙◌, inl, inr, arith, ◌==◌, ==_iff,
  if◌then◌else◌, Bool-cases,
}
use native.Mathlib.Nat.{mod-mod, pow-suc}
use libpogost.Gost3410.Modulo.{mod_times}

-- The inverse modulo `n`, by search below `left`.
find : ℕ → ℕ → ℕ → ℕ
find n e zero = 0
find n e (suc left) = let rest = find n e left in if left * e % n == 1 then left else rest

find_lem : (n e f left : ℕ) → f < left → f * e % n ≡ 1 → find n e left * e % n ≡ 1
unfolding find
find_lem n e f zero h inv = absurd (omega arith)
find_lem n e f (suc left) h inv = elim (Bool-cases (left * e % n == 1)) [
  | inl hit ↦ rw hit ((==_iff _ 1).0 hit)
  | inr miss ↦ rw miss (find_lem n e f left (ground (arith, miss, inv, h)) inv)
]

unfoldable pub inverse : ℕ → ℕ → ℕ
unfolding find
inverse n e = find n e n

pub inverse_lem : (n e f : ℕ) → e < n → f * e % n ≡ 1 → inverse n e * e % n ≡ 1
unfolding inverse
inverse_lem n e f h inv =
    let small : f % n < n = omega (arith, h) in
    let moved : f % n * e % n ≡ f * e % n =
      ap (λ (t : ℕ). t % n) (let s : f % n * e ≡ e * (f % n) = grind arith in s)
      ∙ mod_times n e (f % n) f (mod-mod f n)
      ∙ ap (λ (t : ℕ). t % n) (let s : e * f ≡ f * e = grind arith in s) in
    find_lem n e (f % n) n small (moved ∙ inv)

-- The number of binary digits of a number below `2 ^ left`.
digits_of : ℕ → ℕ → ℕ
digits_of zero v = 0
digits_of (suc left) v = let rest = digits_of left (v / 2) in if v == 0 then 0 else suc rest

digits_of_lem : (left v : ℕ) → v ≤ left → v < 2 ^ digits_of left v
unfolding digits_of
digits_of_lem zero v h = omega arith
digits_of_lem (suc left) v h = elim (Bool-cases (v == 0)) [
  | inl e ↦ rw e (ground (arith, e))
  | inr e ↦
      let pos : 0 < v = ground (arith, e) in
      rw e (
        omega (
          arith,
          digits_of_lem left (v / 2) (omega (arith, pos)),
          pow-suc 2 (digits_of left (v / 2)),
          pos,
        ))
]

unfoldable pub num_bits : ℕ → ℕ
unfolding digits_of
num_bits v = digits_of v v

pub num_bits_lem : (v : ℕ) → v < 2 ^ num_bits v
unfolding num_bits
num_bits_lem v = digits_of_lem v v (omega arith)
