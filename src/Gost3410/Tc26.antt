-- ===== src/Gost3410/Tc26.antt =====
-- src/generic/gost3410_256_tc26_generic.c: keys, signatures and key agreement over the 256-bit
-- curve of TC26, with the addition of points that this file has. The arithmetic of
-- src/generic/ecc_generic.c is the interface Vli.
pub mod Scalar
pub mod Points
pub mod Sign
pub mod Verify
pub mod Agree
mod Tests
use libpogost.Base.{
  ℕ, zero, suc, ◌+◌, ◌-◌, ◌*◌, ◌%◌, ◌^◌, ◌<◌, ◌≡◌, Bool, false, not, ◌&&◌, ◌||◌, Option, none, some,
  List, [], ◌∷◌, ◌++◌, ltb, leb, ◌==◌, if◌then◌else◌, length, take, drop, ◌>>>◌, ◌>>=◌,
}
use mathlib.Core.List.{reverse}
use libpogost.Streebog.{streebog256}
use libpogost.Gost3410.{Point, vli, le_value, vli_to_le, vli_to_be}

-- `struct ecc_curve`, and NDIGITS.
pub record EccCurve : Type 0 where
  pub digits : ℕ
  pub p : ℕ
  pub n : ℕ
  pub a : ℕ
  pub b : ℕ
  pub g : Point

abbrev pub curve_256tc26a : EccCurve
curve_256tc26a = record {
  digits = 4;
  p = vli (0xfffffffffffffd97 ∷ 0xffffffffffffffff ∷ 0xffffffffffffffff ∷ 0xffffffffffffffff ∷ []);
  n = vli (0xc115af556c360c67 ∷ 0x0fd8cddfc87b6635 ∷ 0x0000000000000000 ∷ 0x4000000000000000 ∷ []);
  a = vli (0xb22c656f277e7335 ∷ 0xe25e2013bf95aa33 ∷ 0xaf4892c23035a27c ∷ 0xc2173f1513981673 ∷ []);
  b = vli (0xba9337a6f8ae9513 ∷ 0x22fccd9108e17bf7 ∷ 0xcc20e7c359a9d41a ∷ 0x295f9bae7428ed9c ∷ []);
  g = (
    vli (0x8b2582fe742daa28 ∷ 0x658b9196932e02c7 ∷ 0x880923425712b2bb ∷ 0x91e38443a5e82c0d ∷ []),
    vli (0xaf268adb32322e5c ∷ 0x5fde0b5344766740 ∷ 0x895786c4bb46e956 ∷ 0x32879423ab1a0375 ∷ []),
  );
}

-- The functions of ecc_generic.c that are called, the modulus last, and what they promise.
pub record Vli (c : EccCurve) : Type 0 where
  pub from_le : List ℕ → ℕ
  pub from_be : List ℕ → ℕ
  pub mod_mult_slow : ℕ → ℕ → ℕ → ℕ
  pub mod_add : ℕ → ℕ → ℕ → ℕ
  pub mod_inv : ℕ → ℕ → ℕ
  pub num_bits : ℕ → ℕ
  pub valid : Point → Bool
  pub from_le_lem : (xs : List ℕ) → length xs ≡ 8 * c.digits → from_le xs ≡ le_value xs
  pub from_be_lem : (xs : List ℕ) → length xs ≡ 8 * c.digits → from_be xs ≡ le_value (reverse xs)
  pub mod_mult_slow_lem : (x y m : ℕ) → 0 < m → mod_mult_slow x y m ≡ x * y % m
  pub mod_add_lem : (x y m : ℕ) → x < m → y < m → mod_add x y m ≡ (x + y) % m
  pub mod_inv_lem : (e f m : ℕ) → e < m → f * e % m ≡ 1 → mod_inv e m * e % m ≡ 1
  pub num_bits_lem : (v : ℕ) → v < 2 ^ num_bits v

-- A borrow of the second subtraction would wrap around.
pub mod_sub : EccCurve → ℕ → ℕ → ℕ
mod_sub c x y =
    let all = (2 ^ 64) ^ c.digits in if leb y x then x - y else (c.p + all - (y - x)) % all

pub point_inf : Point → Bool
point_inf p = (p.0 == 0) && (p.1 == 0)

pub scalar_valid : EccCurve → ℕ → Bool
scalar_valid c scalar = not (scalar == 0) && ltb scalar c.n

-- `while (vli_cmp(v, curve.n) >= 0) vli_sub(v, v, curve.n);` on fuel.
pub scalar_reduce_loop : ℕ → EccCurve → ℕ → ℕ
scalar_reduce_loop zero c v = v
scalar_reduce_loop (suc left) c v =
    let rest = scalar_reduce_loop left c (v - c.n) in if ltb v c.n then v else rest

pub scalar_reduce : EccCurve → ℕ → ℕ
unfolding scalar_reduce_loop
scalar_reduce c v = scalar_reduce_loop v c v

module _ (c : EccCurve) (V : Vli c) where
  pub point_double : Point → Point
  unfolding mod_sub point_inf
  point_double p =
      let x = p.0 in
      let y = p.1 in
      let t = V.mod_mult_slow x x c.p in
      let num = V.mod_add (V.mod_add (V.mod_add t t c.p) t c.p) c.a c.p in
      let den = V.mod_add y y c.p in
      let l = V.mod_mult_slow num (V.mod_inv den c.p) c.p in
      let x3 = mod_sub c (V.mod_mult_slow l l c.p) (V.mod_add x x c.p) in
      let y3 = mod_sub c (V.mod_mult_slow l (mod_sub c x x3) c.p) y in
      if point_inf p || (y == 0) then (0, 0) else (x3, y3)

  -- The line through two points with different first coordinates.
  pub point_chord : Point → Point → Point
  unfolding mod_sub
  point_chord p q =
      let x1 = p.0 in
      let y1 = p.1 in
      let x2 = q.0 in
      let y2 = q.1 in
      let num = mod_sub c y2 y1 in
      let den = mod_sub c x2 x1 in
      let l = V.mod_mult_slow num (V.mod_inv den c.p) c.p in
      let x3 = mod_sub c (mod_sub c (V.mod_mult_slow l l c.p) x1) x2 in
      let y3 = mod_sub c (V.mod_mult_slow l (mod_sub c x1 x3) c.p) y1 in (x3, y3)

  pub point_add : Point → Point → Point
  unfolding point_double point_chord point_inf
  point_add p q =
      if point_inf p
      then q
      else if point_inf q
      then p
      else if p.0 == q.0
      then (if p.1 == q.1 then point_double p else (0, 0))
      else point_chord p q

  -- `for (i = (int)bits - 1; i >= 0; i--)`, with the bits below `left` to go.
  pub point_mult_loop : ℕ → Point → Point → ℕ → Point
  unfolding point_double point_add
  point_mult_loop zero r t k = r
  point_mult_loop (suc i) r t k =
      let d = point_double r in
      point_mult_loop i (if (k >>> i) % 2 == 1 then point_add d t else d) t k

  pub point_mult : Point → ℕ → Point
  unfolding point_mult_loop
  point_mult p k = point_mult_loop (V.num_bits k) (0, 0) p k

  pub digest_scalar : List ℕ → ℕ
  unfolding scalar_reduce
  digest_scalar digest = let e = scalar_reduce c (V.from_le digest) in if e == 0 then 1 else e

  pub public_key : List ℕ → Option (List ℕ)
  unfolding point_mult scalar_valid
  public_key private_key =
      let d = V.from_le private_key in
      let q = point_mult c.g d in
      if not (scalar_valid c d)
      then none
      else some (vli_to_le c.digits q.0 ++ vli_to_le c.digits q.1)

  pub sign : List ℕ → List ℕ → List ℕ → Option (List ℕ)
  unfolding digest_scalar scalar_reduce point_mult scalar_valid
  sign digest private_key nonce =
      let d = V.from_le private_key in
      let k = V.from_le nonce in
      let e = digest_scalar digest in
      let r = scalar_reduce c (point_mult c.g k).0 in
      let s = V.mod_add (V.mod_mult_slow d r c.n) (V.mod_mult_slow k e c.n) c.n in
      if not (scalar_valid c d) || not (scalar_valid c k)
      then none
      else if r == 0
      then none
      else if s == 0
      then none
      else some (vli_to_be c.digits s ++ vli_to_be c.digits r)

  pub read_point : List ℕ → Point
  read_point key = (V.from_le (take (8 * c.digits) key), V.from_le (drop (8 * c.digits) key))

  -- The result 0 is `true`.
  pub verify : List ℕ → List ℕ → List ℕ → Bool
  unfolding digest_scalar scalar_reduce point_mult point_add scalar_valid read_point
  verify key digest signature =
      let q = read_point key in
      let s = V.from_be (take (8 * c.digits) signature) in
      let r = V.from_be (drop (8 * c.digits) signature) in
      let e = V.mod_inv (digest_scalar digest) c.n in
      let z1 = V.mod_mult_slow s e c.n in
      let z2 = V.mod_mult_slow (c.n - r) e c.n in
      let at = point_add (point_mult c.g z1) (point_mult q z2) in
      if not (V.valid q) || (not (scalar_valid c r) || not (scalar_valid c s))
      then false
      else (scalar_reduce c at.0 == r)

  -- `memcpy` puts the 16 bytes of `ukm` into the lowest words, on a little-endian machine.
  pub vko : List ℕ → List ℕ → List ℕ → Option (List ℕ)
  unfolding point_mult scalar_valid read_point
  vko key private_key ukm =
      let q = read_point key in
      let d = V.from_le private_key in
      let u = le_value (take 16 ukm) in
      let t = V.mod_mult_slow d u c.n in
      let scalar = V.mod_mult_slow t 4 c.n in
      let at = point_mult q scalar in
      if not (V.valid q) || (not (scalar_valid c d) || u == 0)
      then none
      else if scalar == 0
      then none
      else some (streebog256 (vli_to_le c.digits at.0 ++ vli_to_le c.digits at.1))

  -- Both coordinates; a caller with a null pointer for one of them takes the other.
  pub ecdh_cofactor_xy : List ℕ → List ℕ → Option (List ℕ × List ℕ)
  unfolding point_mult point_inf scalar_valid read_point
  ecdh_cofactor_xy key private_key =
      let q = read_point key in
      let d = V.from_le private_key in
      let scalar = V.mod_mult_slow d 4 c.n in
      let res = point_mult q scalar in
      if not (V.valid q) || not (scalar_valid c d)
      then none
      else if scalar == 0
      then none
      else if point_inf res
      then none
      else some (vli_to_le c.digits res.0, vli_to_le c.digits res.1)

  pub ecdh_cofactor : List ℕ → List ℕ → Option (List ℕ)
  unfolding ecdh_cofactor_xy
  ecdh_cofactor key private_key = do xy ← ecdh_cofactor_xy key private_key; some xy.0

  pub ecdh : List ℕ → List ℕ → Option (List ℕ)
  unfolding ecdh_cofactor
  ecdh key private_key = ecdh_cofactor key private_key
