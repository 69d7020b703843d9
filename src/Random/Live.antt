-- ===== src/Random/Live.antt =====
-- The state never becomes zero, where the generator would draw zeros for ever.
use libpogost.Base.{
  ℕ, zero, suc, ◌+◌, ◌^◌, ◌<◌, bit_or, bit_xor, ◌≡◌, refl, sym, ◌∙◌, inl, inr, false, arith, ◌==◌,
  Bool-cases, u64, ◌<<<◌, ◌>>>◌, eq_of_bit_xor, zeros_of_bit_or, bit_xor-lt, bit_or-lt,
}
use libpogost.Random.{Xoshiro256pp, rol64, step, seed, draws}

-- Four words of 64 bits that are not all zero.
pub record IsLive (s : Xoshiro256pp) : Type 0 where
  fit0 : s.s0 < 2 ^ 64
  fit1 : s.s1 < 2 ^ 64
  fit2 : s.s2 < 2 ^ 64
  fit3 : s.s3 < 2 ^ 64
  some_bit : 0 < s.s0 + s.s1 + s.s2 + s.s3

rol64-lt : (x : ℕ) → x < 2 ^ 64 → rol64 x 45 < 2 ^ 64
unfolding rol64
rol64-lt x h = bit_or-lt 64 (u64 (x <<< 45)) (x >>> 19) (omega arith) (omega arith)

rol64-zero : (x : ℕ) → x < 2 ^ 64 → rol64 x 45 ≡ 0 → x ≡ 0
unfolding rol64
rol64-zero x h e =
    let parts = zeros_of_bit_or (u64 (x <<< 45)) (x >>> 19) e in omega (arith, parts.0, parts.1)

-- Multiplication by 2 ^ 17 modulo 2 ^ 64 moves every number but 0.
shift_fixes_zero : (x : ℕ) → x < 2 ^ 64 → x ≡ u64 (x <<< 17) → x ≡ 0
shift_fixes_zero x h e = omega arith

module _ (s : Xoshiro256pp) (v : IsLive s) where
  abbrev n2 : ℕ
  n2 = bit_xor s.s2 s.s0

  abbrev n3 : ℕ
  n3 = bit_xor s.s3 s.s1

  n2-lt : n2 < 2 ^ 64
  n2-lt = bit_xor-lt 64 s.s2 s.s0 v.fit2 v.fit0

  n3-lt : n3 < 2 ^ 64
  n3-lt = bit_xor-lt 64 s.s3 s.s1 v.fit3 v.fit1

  -- A state that the step takes to zero is zero.
  zero_back :
      bit_xor s.s0 n3 ≡ 0
      → bit_xor s.s1 n2 ≡ 0
      → bit_xor n2 (u64 (s.s1 <<< 17)) ≡ 0
      → rol64 n3 45 ≡ 0
      → s.s0 + s.s1 + s.s2 + s.s3 ≡ 0
  zero_back e0 e1 e2 e3 =
      let z3 = rol64-zero n3 n3-lt e3 in
      let a = eq_of_bit_xor s.s0 n3 e0 in
      let b = eq_of_bit_xor s.s1 n2 e1 in
      let c = eq_of_bit_xor n2 (u64 (s.s1 <<< 17)) e2 in
      let z1 = shift_fixes_zero s.s1 v.fit1 (b ∙ c) in
      let d = eq_of_bit_xor s.s3 s.s1 z3 in
      let f = eq_of_bit_xor s.s2 s.s0 (sym b ∙ z1) in omega (arith, z3, a, z1, d, f)

  step-IsLive : IsLive (step s).1
  unfolding step
  step-IsLive = record {
    fit0 = bit_xor-lt 64 s.s0 n3 v.fit0 n3-lt;
    fit1 = bit_xor-lt 64 s.s1 n2 v.fit1 n2-lt;
    fit2 = bit_xor-lt 64 n2 (u64 (s.s1 <<< 17)) n2-lt (omega arith);
    fit3 = rol64-lt n3 n3-lt;
    some_bit =
        alive (bit_xor s.s0 n3) (bit_xor s.s1 n2) (bit_xor n2 (u64 (s.s1 <<< 17))) (rol64 n3 45)
          zero_back v.some_bit;
  }
    where
      alive :
          (a b c d : ℕ)
          → (a ≡ 0 → b ≡ 0 → c ≡ 0 → d ≡ 0 → s.s0 + s.s1 + s.s2 + s.s3 ≡ 0)
          → 0 < s.s0 + s.s1 + s.s2 + s.s3
          → 0 < a + b + c + d
      alive zero zero zero zero back p =
          let e = back refl refl refl refl in absurd (omega (arith, e))
      alive (suc a) b c d back p = omega arith
      alive zero (suc b) c d back p = omega arith
      alive zero zero (suc c) d back p = omega arith
      alive zero zero zero (suc d) back p = omega arith

draws-IsLive : (n : ℕ) (s : Xoshiro256pp) → IsLive s → IsLive (draws n s)
unfolding draws
draws-IsLive zero s v = v
draws-IsLive (suc n) s v = draws-IsLive n (step s).1 (step-IsLive s v)

seed-IsLive :
    (a b c d : ℕ) → a < 2 ^ 64 → b < 2 ^ 64 → c < 2 ^ 64 → d < 2 ^ 64 → IsLive (seed a b c d)
unfolding seed
seed-IsLive a b c d ha hb hc hd = elim (Bool-cases (bit_or (bit_or (bit_or a b) c) d == 0)) [
  | inl e ↦
      rw e (record { fit0 = omega arith; fit1 = hb; fit2 = hc; fit3 = hd; some_bit = omega arith })
  | inr e ↦
      rw e
        (record { fit0 = ha; fit1 = hb; fit2 = hc; fit3 = hd; some_bit = not_all_zero a b c d e })
]
  where
    not_all_zero :
        (a b c d : ℕ) → (bit_or (bit_or (bit_or a b) c) d == 0) ≡ false → 0 < a + b + c + d
    not_all_zero zero zero zero zero e = absurd (ground arith)
    not_all_zero (suc a) b c d e = omega arith
    not_all_zero zero (suc b) c d e = omega arith
    not_all_zero zero zero (suc c) d e = omega arith
    not_all_zero zero zero zero (suc d) e = omega arith

-- From any seed of four 64-bit words, zeros included, and after any number of draws, the state has
-- four words of 64 bits that are not all zero.
pub draws-seed :
    (n a b c d : ℕ)
    → a < 2 ^ 64
    → b < 2 ^ 64
    → c < 2 ^ 64
    → d < 2 ^ 64
    → IsLive (draws n (seed a b c d))
draws-seed n a b c d ha hb hc hd = draws-IsLive n (seed a b c d) (seed-IsLive a b c d ha hb hc hd)
