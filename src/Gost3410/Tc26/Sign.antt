-- ===== src/Gost3410/Tc26/Sign.antt =====
-- What a public key and a signature of the curve of TC26 hold.
use libpogost.Base.{
  ℕ, ◌+◌, ◌*◌, ◌%◌, ◌^◌, ◌≤◌, ◌<◌, ◌≡◌, sym, ap, ap₂, ◌∙◌, inl, inr, Bool, true, false, not, ◌||◌,
  none, some, List, ◌++◌, arith, ◌==◌, if◌then◌else◌, Bool-cases, take, drop, take-append,
  drop-append,
}
use mathlib.Core.List.{reverse-reverse}
use native.Mathlib.Nat.{mod-eq_of_lt}
use libpogost.Gost3410.{le_value, vli_to_le, vli_to_be}
use libpogost.Gost3410.Words.{length-vli_to_le, length-vli_to_be, le_value-vli_to_le}
use libpogost.Gost3410.Tc26.{
  EccCurve, Vli, scalar_valid, scalar_reduce, point_mult, digest_scalar, public_key, sign,
  read_point,
}
use libpogost.Gost3410.Tc26.Scalar.{scalar_reduce_lem}
use libpogost.Gost3410.Tc26.Points.{Multiples, point_mult-base}

-- The order fits the digits.
pub record IsCurve (c : EccCurve) : Type 0 where
  pub some_order : 1 < c.n
  pub order_fits : c.n ≤ (2 ^ 64) ^ c.digits

scalar_valid_inv : (c : EccCurve) (x : ℕ) → scalar_valid c x ≡ true → (0 < x) × (x < c.n)
unfolding scalar_valid
scalar_valid_inv c x h = ground (arith, h)

pub scalar_valid_intro : (c : EccCurve) (x : ℕ) → 0 < x → x < c.n → scalar_valid c x ≡ true
unfolding scalar_valid
scalar_valid_intro c x h k = ground (arith, h, k)

module _ (c : EccCurve) (V : Vli c) where
  pub from_le-vli_to_le : (v : ℕ) → v < (2 ^ 64) ^ c.digits → V.from_le (vli_to_le c.digits v) ≡ v
  from_le-vli_to_le v h =
      V.from_le_lem (vli_to_le c.digits v) (length-vli_to_le c.digits v)
      ∙ le_value-vli_to_le c.digits v h

  pub from_be-vli_to_be : (v : ℕ) → v < (2 ^ 64) ^ c.digits → V.from_be (vli_to_be c.digits v) ≡ v
  unfolding vli_to_be
  from_be-vli_to_be v h =
      V.from_be_lem (vli_to_be c.digits v) (length-vli_to_be c.digits v)
      ∙ ap le_value (reverse-reverse (vli_to_le c.digits v))
      ∙ le_value-vli_to_le c.digits v h

module _ (c : EccCurve) (V : Vli c) (G : Multiples c V) (w : IsCurve c) where
  pub digest_scalar-lt : (digest : List ℕ) → digest_scalar c V digest < c.n
  unfolding digest_scalar
  digest_scalar-lt digest =
      let v = V.from_le digest in
      let lt : scalar_reduce c v < c.n =
        omega (arith, scalar_reduce_lem c v (omega (arith, w.some_order)), w.some_order) in
      elim (Bool-cases (scalar_reduce c v == 0)) [ inl e ↦ rw e w.some_order | inr e ↦ rw e lt ]

  point_mult-scalar : (k : ℕ) → k < c.n → point_mult c V c.g k ≡ G.times k
  point_mult-scalar k h =
      point_mult-base c V G (omega (arith, h)) k w.some_order ∙ ap G.times (mod-eq_of_lt h)

  -- The public key is read again as the point that it was made of.
  pub read_point-public_key :
      (private_key key : List ℕ)
      → public_key c V private_key ≡ some key
      → let d = V.from_le private_key in (0 < d) × (d < c.n) × (read_point c V key ≡ G.times d)
  unfolding public_key read_point
  read_point-public_key private_key key h =
      let d = V.from_le private_key in
      let at = point_mult c V c.g d in
      let x = vli_to_le c.digits at.0 in
      let y = vli_to_le c.digits at.1 in
      let a = given (scalar_valid c d) (x ++ y) key h in
      let v = scalar_valid_inv c d a.0 in
      let m = point_mult-scalar d v.1 in
      let q = G.fits d v.1 in
      let l = length-vli_to_le c.digits at.0 in
      let first : V.from_le (take (8 * c.digits) (x ++ y)) ≡ (G.times d).0 =
        ap (λ t. V.from_le t)
          (take-append (8 * c.digits) x y (sym l) ∙ ap (λ p. vli_to_le c.digits p.0) m)
        ∙ from_le-vli_to_le c V (G.times d).0 q.0 in
      let second : V.from_le (drop (8 * c.digits) (x ++ y)) ≡ (G.times d).1 =
        ap (λ t. V.from_le t)
          (drop-append (8 * c.digits) x y (sym l) ∙ ap (λ p. vli_to_le c.digits p.1) m)
        ∙ from_le-vli_to_le c V (G.times d).1 q.1 in
      (
        v.0,
        v.1,
        ap (λ t. (V.from_le (take (8 * c.digits) t), V.from_le (drop (8 * c.digits) t))) (sym a.1)
            ∙ ap₂ (λ s t. (s, t)) first second,
      )
    where
      given :
          (b : Bool) (x key : List ℕ)
          → (if not b then none else some x) ≡ some key
          → (b ≡ true) × (x ≡ key)
      given b x key h = ground (arith, h)

  -- What a signature holds.
  pub record Signed (digest private_key nonce signature : List ℕ) : Type 0 where
    pub k_pos : 0 < V.from_le nonce
    pub k_lt : V.from_le nonce < c.n
    pub r : ℕ
    pub r_is : r ≡ scalar_reduce c (G.times (V.from_le nonce)).0
    pub r_pos : 0 < r
    pub s : ℕ
    pub s_is :
        s
        ≡ (V.from_le private_key * r % c.n + V.from_le nonce * digest_scalar c V digest % c.n) % c.n
    pub s_pos : 0 < s
    pub written : signature ≡ vli_to_be c.digits s ++ vli_to_be c.digits r

  pub sign-Signed :
      (digest private_key nonce signature : List ℕ)
      → sign c V digest private_key nonce ≡ some signature
      → Signed digest private_key nonce signature
  unfolding sign
  sign-Signed digest private_key nonce signature h =
      let d = V.from_le private_key in
      let k = V.from_le nonce in
      let e = digest_scalar c V digest in
      let r = scalar_reduce c (point_mult c V c.g k).0 in
      let s = V.mod_add (V.mod_mult_slow d r c.n) (V.mod_mult_slow k e c.n) c.n in
      let a =
        given (scalar_valid c d) (scalar_valid c k) (r == 0) (s == 0)
          (vli_to_be c.digits s ++ vli_to_be c.digits r) signature h in
      let v = scalar_valid_inv c k a.1 in
      let pos : 0 < c.n = omega (arith, w.some_order) in
      let below : (x : ℕ) → x % c.n < c.n = (λ x. mod_lt x) in
      record {
        k_pos = v.0;
        k_lt = v.1;
        r = r;
        r_is = ap (λ p. scalar_reduce c p.0) (point_mult-scalar k v.1);
        r_pos = ground (arith, a.2);
        s = s;
        s_is =
            ap₂ (λ x y. V.mod_add x y c.n) (V.mod_mult_slow_lem d r c.n pos)
              (V.mod_mult_slow_lem k e c.n pos)
            ∙ V.mod_add_lem (d * r % c.n) (k * e % c.n) c.n (below (d * r)) (below (k * e));
        s_pos = ground (arith, a.3);
        written = sym a.4;
      }
    where
      given :
          (a b y z : Bool) (x t : List ℕ)
          → (if not a || not b then none else if y then none else if z then none else some x)
            ≡ some t
          → (a ≡ true) × (b ≡ true) × (y ≡ false) × (z ≡ false) × (x ≡ t)
      given a b y z x t h = ground (arith, h)

      mod_lt : (x : ℕ) → x % c.n < c.n
      mod_lt x = omega (arith, w.some_order)
