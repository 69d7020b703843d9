-- ===== src/Gost3410/Instance.antt =====
-- An instance of the interface Ecc for the tests: the numbers modulo the order as the group. Outside
-- the range in which they are right, the multiplications give (0, 0).
use libpogost.Base.{
  ℕ, ◌+◌, ◌*◌, ◌%◌, ◌^◌, ◌≤◌, ◌<◌, ◌≡◌, refl, sym, ap, ◌∙◌, inl, inr, true, not, ◌&&◌, arith, ltb,
  ◌==◌, ==_iff, if◌then◌else◌, Bool-cases,
}
use mathlib.Core.List.{reverse}
use native.Mathlib.Nat.{mod-eq_of_lt}
use libpogost.Gost3410.{Point, Curve, Fits, can_add, Ecc, le_value}
use libpogost.Gost3410.Search.{inverse, inverse_lem}

-- The curve of these digits and this order, with the base point (1, 0).
abbrev pub line : ℕ → ℕ → Curve
line digits n = record { digits = digits; n = n; g = (1, 0) }

module _ (digits n : ℕ) (some_order : 1 < n) (fits : n ≤ (2 ^ 64) ^ digits) where
  abbrev pub c : Curve
  c = line digits n

  -- The multiple with the number `k`; 0 stands for the point at infinity.
  abbrev pub at : ℕ → Point
  at k = (k, 0)

  abbrev pub mult : Point → ℕ → Point
  mult p k = if ltb 1 k && ltb (k + 2) n then at (p.0 * k % n) else (0, 0)

  pub mult_lem : (a b : ℕ) → Fits n b → mult (at a) b ≡ at (a * b % n)
  mult_lem a b h = let e : (ltb 1 b && ltb (b + 2) n) ≡ true = ground (arith, h) in rw e refl

  abbrev pub mult_shamir : ℕ → Point → ℕ → Point → Point
  mult_shamir u p v q =
      if v == 0
      then at (u * p.0 % n)
      else if can_add c u v q.0
      then at ((u * p.0 + v * q.0) % n)
      else (0, 0)

  pub mult_shamir_lem :
      (u v d : ℕ) → can_add c u v d ≡ true → mult_shamir u c.g v (at d) ≡ at ((u + v * d) % n)
  mult_shamir_lem u v d h =
      let one : u * 1 ≡ u = omega arith in
      elim (Bool-cases (v == 0)) [
        | inl e ↦
            let z : v ≡ 0 = (==_iff v 0).0 e in
            let sum : u * 1 ≡ u + v * d =
              one
              ∙ (let s : u ≡ u + 0 * d = omega arith in s)
              ∙ ap (λ (t : ℕ). u + t * d) (sym z) in
            rw e (ap (λ (t : ℕ). at (t % n)) sum)
        | inr e ↦ rw (e, h) (ap (λ (t : ℕ). at ((t + v * d) % n)) one)
      ]

  pub mult_shamir-zero : (u : ℕ) → u < n → mult_shamir u c.g 0 c.g ≡ at u
  mult_shamir-zero u h =
      ap (λ (t : ℕ). at (t % n)) (let e : u * 1 ≡ u = omega arith in e) ∙ ap at (mod-eq_of_lt h)

  pub valid_lem :
      (d : ℕ)
      → 0 < d
      → d < n
      → (not (d == 0) ≡ true) × (d < (2 ^ 64) ^ digits) × (0 < (2 ^ 64) ^ digits)
  valid_lem d pos h = (ground (arith, pos), omega (arith, h, fits), omega (arith, h, fits))

  -- The inverse of 1 is known without a search.
  abbrev pub mod_inv : ℕ → ℕ
  mod_inv e = if e == 1 then 1 else inverse n e

  pub mod_inv_lem : (e f : ℕ) → e < n → f * e % n ≡ 1 → mod_inv e * e % n ≡ 1
  mod_inv_lem e f h inv = elim (Bool-cases (e == 1)) [
    | inl hit ↦ rw hit (ap (λ (t : ℕ). 1 * t % n) ((==_iff e 1).0 hit) ∙ mod-eq_of_lt some_order)
    | inr miss ↦ rw miss (inverse_lem n e f h inv)
  ]

  abbrev pub numbers : Ecc c
  numbers = record {
    from_le = le_value;
    from_be = λ xs. le_value (reverse xs);
    mod_mult = λ a b. a * b % n;
    mod_add = λ a b. (a + b) % n;
    mod_inv = mod_inv;
    mult = mult;
    mult_shamir = mult_shamir;
    valid = λ p. not (p.0 == 0);
    times = at;
    from_le_lem = λ xs h. refl;
    from_be_lem = λ xs h. refl;
    mod_mult_lem = λ a b. refl;
    mod_add_lem = λ a b p q. refl;
    mod_inv_lem = mod_inv_lem;
    times_one = refl;
    mult_lem = λ a b pos h k. mult_lem a b k;
    mult_shamir_lem = λ u v d pos h su sv k q. mult_shamir_lem u v d k;
    mult_shamir-zero = λ u pos h. mult_shamir-zero u h;
    valid_lem = valid_lem;
  }
