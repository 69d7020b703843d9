-- ===== src/Gost3410.antt =====
-- src/generic/gost3410_generic.c: signatures and key agreement of GOST R 34.10-2012. A
-- `u64[NDIGITS]` is read as the number of its digits, and the arithmetic of
-- src/generic/ecc_generic.c on such numbers and on points is the interface Ecc.
pub mod Words
pub mod Modulo
pub mod Sign
pub mod Verify
pub mod Agree
pub mod A256
pub mod Tc26
mod Search
mod Instance
mod Tests
use libpogost.Base.{
  ℕ, zero, suc, ◌+◌, ◌-◌, ◌*◌, ◌%◌, ◌^◌, ◌<◌, ◌≡◌, Bool, true, false, not, ◌/◌, ◌&&◌, ◌||◌,
  each_below, Option, none, some, List, [], ◌∷◌, ◌++◌, ltb, ◌==◌, if◌then◌else◌, length, take, drop,
  u64, ◌>>>◌,
}
use mathlib.Core.List.{reverse}
use libpogost.Kdf.{put_le64}
use libpogost.Streebog.{streebog512}

-- `struct ecc_point`
abbrev pub Point : Type 0
Point = ℕ × ℕ

-- What the functions read of `struct ecc_curve`, and NDIGITS.
pub record Curve : Type 0 where
  pub digits : ℕ
  pub n : ℕ
  pub g : Point

-- The number of its words, the lowest first.
abbrev pub vli : List ℕ → ℕ
vli [] = 0
vli (w ∷ ws) = w + 2 ^ 64 * vli ws

abbrev pub curve_512a : Curve
curve_512a = record {
  digits = 8;
  n = vli (
      0xcacdb1411f10b275 ∷ 0x9b4b38abfad2b85d ∷ 0x6ff22b8d4e056060 ∷ 0x27e69532f48d8911
      ∷ 0xffffffffffffffff ∷ 0xffffffffffffffff ∷ 0xffffffffffffffff ∷ 0xffffffffffffffff ∷ []);
  g = (
    vli (0x0000000000000003 ∷ 0 ∷ 0 ∷ 0 ∷ 0 ∷ 0 ∷ 0 ∷ 0 ∷ []),
    vli (
        0x89a589cb5215f2a4 ∷ 0x8028fe5fc235f5b8 ∷ 0x3d75e6a50e3a41e9 ∷ 0xdf1626be4fd036e9
        ∷ 0x778064fdcbefa921 ∷ 0xce5e1c93acf1abc1 ∷ 0xa61b8816e25450e6 ∷ 0x7503cfe87a836ae3 ∷ []),
  );
}

abbrev pub curve_256_xcha : Curve
curve_256_xcha = record {
  digits = 4;
  n = vli (0x45841b09b761b893 ∷ 0x6c611070995ad100 ∷ 0xffffffffffffffff ∷ 0xffffffffffffffff ∷ []);
  g = (
    vli (0x0000000000000001 ∷ 0 ∷ 0 ∷ 0 ∷ []),
    vli (0x22acc99c9e9f1e14 ∷ 0x35294f2ddf23e3b1 ∷ 0x27df505a453f2b76 ∷ 0x8d91e471e0989cda ∷ []),
  );
}

-- The number of little-endian bytes.
pub le_value : List ℕ → ℕ
le_value [] = 0
le_value (x ∷ xs) = x + 256 * le_value xs

-- The scalars that the comment in ecc_generic.c allows: from 2 to n - 3.
abbrev pub Fits : ℕ → ℕ → Type 0
Fits n k = (1 < k) × (k + 2 < n)

-- The loop of ecc_point_mult_shamir, with `u` times the base point and `v` times its `d`-fold, at
-- bit `i`: the sum of the two points is made from different ones if it is used, and the point that
-- is added is neither equal nor opposite to the one that it is added to.
unfoldable can_add_bit : ℕ → ℕ → ℕ → ℕ → ℕ → Bool
can_add_bit n u v d i =
    let s = u / 2 ^ i % 2 in
    let t = v / 2 ^ i % 2 in
    let upper_u = u / 2 ^ (i + 1) in
    let upper_v = v / 2 ^ (i + 1) in
    let at = 2 * (upper_u + upper_v * d) % n in
    let added = (s + t * d) % n in
    let apart = not (at == added) && not ((at + added) % n == 0) in
    (not (s + t == 2) || (ltb 1 d && ltb (d + 1) n))
    && ((upper_u + upper_v == 0) || ((s + t == 0) || apart))

unfoldable pub can_add : Curve → ℕ → ℕ → ℕ → Bool
unfolding can_add_bit
can_add c u v d = each_below (can_add_bit c.n u v d) (64 * c.digits)

-- The functions of ecc_generic.c that are called with the curve, and what they promise: the
-- bytes are read in their order, the arithmetic is modulo the order of the base point, and points
-- are multiples in a group of that order. The multiplications are right only where their formulas
-- are. (A point with first coordinate 0 would be another exception; neither curve has one.)
pub record Ecc (c : Curve) : Type 0 where
  pub from_le : List ℕ → ℕ
  pub from_be : List ℕ → ℕ
  pub mod_mult : ℕ → ℕ → ℕ
  pub mod_add : ℕ → ℕ → ℕ
  pub mod_inv : ℕ → ℕ
  pub mult : Point → ℕ → Point
  pub mult_shamir : ℕ → Point → ℕ → Point → Point
  pub valid : Point → Bool
  pub times : ℕ → Point
  pub from_le_lem : (xs : List ℕ) → length xs ≡ 8 * c.digits → from_le xs ≡ le_value xs
  pub from_be_lem : (xs : List ℕ) → length xs ≡ 8 * c.digits → from_be xs ≡ le_value (reverse xs)
  pub mod_mult_lem : (a b : ℕ) → mod_mult a b ≡ a * b % c.n
  pub mod_add_lem : (a b : ℕ) → a < c.n → b < c.n → mod_add a b ≡ (a + b) % c.n
  pub mod_inv_lem : (e f : ℕ) → e < c.n → f * e % c.n ≡ 1 → mod_inv e * e % c.n ≡ 1
  pub times_one : times 1 ≡ c.g
  pub mult_lem : (a b : ℕ) → 0 < a → a < c.n → Fits c.n b → mult (times a) b ≡ times (a * b % c.n)
  pub mult_shamir_lem :
      (u v d : ℕ)
      → 0 < d
      → d < c.n
      → u < c.n
      → v < c.n
      → can_add c u v d ≡ true
      → 0 < (u + v * d) % c.n
      → mult_shamir u c.g v (times d) ≡ times ((u + v * d) % c.n)
  pub mult_shamir-zero : (u : ℕ) → 0 < u → u < c.n → mult_shamir u c.g 0 c.g ≡ times u
  pub valid_lem :
      (d : ℕ)
      → 0 < d
      → d < c.n
      → (valid (times d) ≡ true)
        × ((times d).0 < (2 ^ 64) ^ c.digits)
        × ((times d).1 < (2 ^ 64) ^ c.digits)

-- `out[i * 8 + j] = (u8)(in[i] >> (j * 8))`, with the words to go.
pub vli_to_le : ℕ → ℕ → List ℕ
vli_to_le zero v = []
vli_to_le (suc left) v = put_le64 (u64 v) ++ vli_to_le left (v >>> 64)

pub vli_to_be : ℕ → ℕ → List ℕ
unfolding vli_to_le
vli_to_be digits v = reverse (vli_to_le digits v)

pub scalar_valid : Curve → ℕ → Bool
scalar_valid c scalar = not (scalar == 0) && ltb scalar c.n

-- `if (vli_cmp(v, curve.n) >= 0) vli_sub(v, v, curve.n);`
pub less_order : Curve → ℕ → ℕ
less_order c v = if ltb v c.n then v else v - c.n

module _ (c : Curve) (E : Ecc c) where
  pub digest_scalar : List ℕ → ℕ
  unfolding less_order
  digest_scalar digest = let e = less_order c (E.from_le digest) in if e == 0 then 1 else e

  pub public_key : List ℕ → Option (List ℕ)
  public_key private_key =
      let d = E.from_le private_key in
      if not (scalar_valid c d)
      then none
      else (let q = E.mult c.g d in some (vli_to_le c.digits q.0 ++ vli_to_le c.digits q.1))

  pub sign : List ℕ → List ℕ → List ℕ → Option (List ℕ)
  sign digest private_key nonce =
      let d = E.from_le private_key in
      let k = E.from_le nonce in
      let e = digest_scalar digest in
      let r = less_order c (E.mult c.g k).0 in
      let s = E.mod_add (E.mod_mult d r) (E.mod_mult k e) in
      if not (scalar_valid c d) || not (scalar_valid c k)
      then none
      else if r == 0
      then none
      else if s == 0
      then none
      else some (vli_to_be c.digits s ++ vli_to_be c.digits r)

  pub read_point : List ℕ → Point
  read_point public_key' =
      (E.from_le (take (8 * c.digits) public_key'), E.from_le (drop (8 * c.digits) public_key'))

  -- The result 0 is `true`.
  pub verify : List ℕ → List ℕ → List ℕ → Bool
  verify public_key' digest signature =
      let q = read_point public_key' in
      let s = E.from_be (take (8 * c.digits) signature) in
      let r = E.from_be (drop (8 * c.digits) signature) in
      let e = E.mod_inv (digest_scalar digest) in
      let z1 = E.mod_mult s e in
      let z2 = E.mod_mult (c.n - r) e in
      let at = less_order c (E.mult_shamir z1 c.g z2 q).0 in
      if not (E.valid q) || (not (scalar_valid c r) || not (scalar_valid c s))
      then false
      else (at == r)

  -- `memcpy` puts the 16 bytes of `ukm` into the lowest words, on a little-endian machine.
  pub vko : List ℕ → List ℕ → List ℕ → Option (List ℕ)
  vko public_key' private_key ukm =
      let q = read_point public_key' in
      let d = E.from_le private_key in
      let u = le_value (take 16 ukm) in
      let scalar = E.mod_mult d u in
      let at = E.mult q scalar in
      if not (E.valid q) || (not (scalar_valid c d) || u == 0)
      then none
      else if scalar == 0
      then none
      else some (streebog512 (vli_to_le c.digits at.0 ++ vli_to_le c.digits at.1))
