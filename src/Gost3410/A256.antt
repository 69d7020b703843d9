-- ===== src/Gost3410/A256.antt =====
-- src/generic/gost3410_256_generic.c: signatures over the 256-bit curve. Where the compiler has
-- integers of 128 bits, two functions of src/optimized/gost3410_256a.c multiply points; otherwise
-- ecc_generic.c does.
pub mod Builds
mod Tests
use libpogost.Base.{
  ◌%◌, ◌+◌, ◌<◌, ℕ, ◌-◌, ◌*◌, ◌≡◌, Bool, true, false, not, ◌&&◌, ◌||◌, Option, none, some, List,
  ◌++◌, ◌==◌, if◌then◌else◌, take, drop,
}
use libpogost.Gost3410.{
  Point, Curve, Ecc, vli_to_le, vli_to_be, scalar_valid, less_order, digest_scalar, read_point,
}

-- `gost3410_256a_point_mul_g` and `gost3410_256a_point_mul_two`, and what they promise: the
-- multiple of the base point, and the sum of multiples of it and of another point of its group.
pub record Optimized (c : Curve) (E : Ecc c) : Type 0 where
  pub point_mul_g : List ℕ → List ℕ × List ℕ
  pub point_mul_two : List ℕ → List ℕ → List ℕ → List ℕ → List ℕ × List ℕ
  pub point_mul_g_lem :
      (k : List ℕ)
      → scalar_valid c (E.from_le k) ≡ true
      → let p = E.times (E.from_le k) in
        point_mul_g k ≡ (vli_to_le c.digits p.0, vli_to_le c.digits p.1)
  pub point_mul_two_lem :
      (k1 k2 x y : List ℕ) (d : ℕ)
      → 0 < d
      → d < c.n
      → (E.from_le x, E.from_le y) ≡ E.times d
      → 0 < (E.from_le k1 + E.from_le k2 * d) % c.n
      → let p = E.times ((E.from_le k1 + E.from_le k2 * d) % c.n) in
        point_mul_two k1 k2 x y ≡ (vli_to_le c.digits p.0, vli_to_le c.digits p.1)

module _ (c : Curve) (E : Ecc c) where
  -- A build with `__SIZEOF_INT128__` has the optimized functions.
  abbrev pub Build : Type 0
  Build = Option (Optimized c E)

  pub point_mult : Point → ℕ → Point
  point_mult p scalar = E.mult_shamir scalar p 0 p

  pub public_bytes : Build → List ℕ → List ℕ × List ℕ
  unfolding point_mult
  public_bytes (some o) private_key = o.point_mul_g private_key
  public_bytes none private_key =
      let q = point_mult c.g (E.from_le private_key) in
      (vli_to_le c.digits q.0, vli_to_le c.digits q.1)

  pub public_key : Build → List ℕ → Option (List ℕ)
  unfolding public_bytes
  public_key build private_key =
      let d = E.from_le private_key in
      let q = public_bytes build private_key in
      if not (scalar_valid c d) then none else some (q.0 ++ q.1)

  -- The first coordinate of the point that `sign` makes with the nonce.
  pub nonce_x : Build → List ℕ → ℕ
  unfolding point_mult
  nonce_x (some o) nonce = E.from_le (o.point_mul_g nonce).0
  nonce_x none nonce = (point_mult c.g (E.from_le nonce)).0

  pub sign : Build → List ℕ → List ℕ → List ℕ → Option (List ℕ)
  unfolding nonce_x
  sign build digest private_key nonce =
      let d = E.from_le private_key in
      let k = E.from_le nonce in
      let e = digest_scalar c E digest in
      let r = less_order c (nonce_x build nonce) in
      let s = E.mod_add (E.mod_mult d r) (E.mod_mult k e) in
      if not (scalar_valid c d) || not (scalar_valid c k)
      then none
      else if r == 0
      then none
      else if s == 0
      then none
      else some (vli_to_be c.digits s ++ vli_to_be c.digits r)

  -- The first coordinate of the point that `verify` computes; `none` is the result -1.
  pub sum_x : Build → ℕ → ℕ → Point → List ℕ → Option ℕ
  unfolding point_mult
  sum_x (some o) z1 z2 q key =
      let x = take (8 * c.digits) key in
      let y = drop (8 * c.digits) key in
      some (E.from_le (o.point_mul_two (vli_to_le c.digits z1) (vli_to_le c.digits z2) x y).0)
  sum_x none z1 z2 q key =
      let z = E.mod_add z1 z2 in
      if (q.0 == c.g.0) && (q.1 == c.g.1)
      then (if z == 0 then none else some (point_mult c.g z).0)
      else some (E.mult_shamir z1 c.g z2 q).0

  pub is_reduced_to : ℕ → Option ℕ → Bool
  is_reduced_to r none = false
  is_reduced_to r (some x) = less_order c x == r

  -- The result 0 is `true`.
  pub verify : Build → List ℕ → List ℕ → List ℕ → Bool
  unfolding sum_x is_reduced_to
  verify build key digest signature =
      let q = read_point c E key in
      let s = E.from_be (take (8 * c.digits) signature) in
      let r = E.from_be (drop (8 * c.digits) signature) in
      let e = E.mod_inv (digest_scalar c E digest) in
      let z1 = E.mod_mult s e in
      let z2 = E.mod_mult (c.n - r) e in
      let x = sum_x build z1 z2 q key in
      if not (E.valid q) || (not (scalar_valid c r) || not (scalar_valid c s))
      then false
      else is_reduced_to r x
