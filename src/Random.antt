-- ===== src/Random.antt =====
-- The generator of src/xoshiro256pp.c and include/libpogost/xoshiro256pp.h.
pub mod Live
mod Tests
use libpogost.Base.{ℕ, zero, suc, ◌+◌, ◌-◌, bit_or, bit_xor, ◌==◌, if◌then◌else◌, u64, ◌<<<◌, ◌>>>◌}

pub record Xoshiro256pp : Type 0 where
  pub s0 : ℕ
  pub s1 : ℕ
  pub s2 : ℕ
  pub s3 : ℕ

-- `x << k | x >> (64 - k)`
pub rol64 : ℕ → ℕ → ℕ
rol64 x k = bit_or (u64 (x <<< k)) (x >>> (64 - k))

-- The number that is drawn, and the state after it.
pub step : Xoshiro256pp → ℕ × Xoshiro256pp
unfolding rol64
step s =
    let x = u64 (s.s0 + s.s3) in
    let res = u64 (rol64 x 23 + s.s0) in
    let t = u64 (s.s1 <<< 17) in
    let s2 = bit_xor s.s2 s.s0 in
    let s3 = bit_xor s.s3 s.s1 in
    let s1 = bit_xor s.s1 s2 in
    let s0 = bit_xor s.s0 s3 in
    (res, record { s0 = s0; s1 = s1; s2 = bit_xor s2 t; s3 = rol64 s3 45 })

pub seed : ℕ → ℕ → ℕ → ℕ → Xoshiro256pp
seed a b c d = record {
  s0 = (if bit_or (bit_or (bit_or a b) c) d == 0 then 1 else a);
  s1 = b;
  s2 = c;
  s3 = d;
}

-- The state after a number of draws.
pub draws : ℕ → Xoshiro256pp → Xoshiro256pp
unfolding step
draws zero s = s
draws (suc n) s = draws n (step s).1
