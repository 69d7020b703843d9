-- ===== src/Gost3410/Sign.antt =====
-- What a public key and a signature hold.
use libpogost.Base.{
  ℕ, ◌+◌, ◌-◌, ◌*◌, ◌%◌, ◌^◌, ◌≤◌, ◌<◌, ◌≡◌, sym, ap, ap₂, ◌∙◌, inl, inr, Bool, true, false, not,
  ◌||◌, Option, none, some, List, ◌++◌, arith, ltb, ◌==◌, if◌then◌else◌, Bool-cases, length, take,
  drop, take-append, drop-append, Below,
}
use native.Mathlib.Nat.{mod-eq_of_lt}
use libpogost.Gost3410.{
  Point, Curve, Fits, Ecc, vli_to_le, vli_to_be, scalar_valid, less_order, digest_scalar,
  public_key, sign, read_point,
}
use libpogost.Gost3410.Modulo.{nonce_again}
use libpogost.Gost3410.Words.{length-vli_to_le, le_value-words, from_le-vli_to_le}

-- A curve whose order fills the digits up to one bit.
pub record IsCurve (c : Curve) : Type 0 where
  pub some_order : 1 < c.n
  pub order_fits : c.n ≤ (2 ^ 64) ^ c.digits
  pub order_fills : (2 ^ 64) ^ c.digits ≤ 2 * c.n

pub scalar_valid_inv : (c : Curve) (x : ℕ) → scalar_valid c x ≡ true → (0 < x) × (x < c.n)
unfolding scalar_valid
scalar_valid_inv c x h = ground (arith, h)

pub scalar_valid_intro : (c : Curve) (x : ℕ) → 0 < x → x < c.n → scalar_valid c x ≡ true
unfolding scalar_valid
scalar_valid_intro c x h k = ground (arith, h, k)

less_order-lt : (c : Curve) (v : ℕ) → v < 2 * c.n → less_order c v < c.n
unfolding less_order
less_order-lt c v h = elim (Bool-cases (ltb v c.n)) [
  | inl e ↦ rw e (ground (arith, e))
  | inr e ↦ rw e (ground (arith, e, h))
]

module _ (c : Curve) (E : Ecc c) (w : IsCurve c) where
  pub digest_scalar-lt :
      (digest : List ℕ)
      → length digest ≡ 8 * c.digits
      → Below 256 digest
      → digest_scalar c E digest < c.n
  unfolding digest_scalar
  digest_scalar-lt digest h fits =
      let v = E.from_le digest in
      let small : v < 2 * c.n =
        omega
          (arith, E.from_le_lem digest h, le_value-words c.digits digest h fits, w.order_fills) in
      let lt = less_order-lt c v small in
      elim (Bool-cases (less_order c v == 0)) [ inl e ↦ rw e w.some_order | inr e ↦ rw e lt ]

  -- The bytes of a multiple of the base point, read again.
  abbrev pub key_bytes : Point → List ℕ
  key_bytes q = vli_to_le c.digits q.0 ++ vli_to_le c.digits q.1

  pub read_point-key_bytes :
      (d : ℕ) → 0 < d → d < c.n → read_point c E (key_bytes (E.times d)) ≡ E.times d
  unfolding read_point
  read_point-key_bytes d pos lt =
      let p = E.times d in
      let x = vli_to_le c.digits p.0 in
      let y = vli_to_le c.digits p.1 in
      let q = E.valid_lem d pos lt in
      let l = length-vli_to_le c.digits p.0 in
      let first : E.from_le (take (8 * c.digits) (x ++ y)) ≡ p.0 =
        ap (λ t. E.from_le t) (take-append (8 * c.digits) x y (sym l))
        ∙ from_le-vli_to_le c E p.0 q.1 in
      let second : E.from_le (drop (8 * c.digits) (x ++ y)) ≡ p.1 =
        ap (λ t. E.from_le t) (drop-append (8 * c.digits) x y (sym l))
        ∙ from_le-vli_to_le c E p.1 q.2 in
      ap₂ (λ s t. (s, t)) first second

  -- A multiple of the base point by ecc_point_mult.
  mult-base : (k : ℕ) → Fits c.n k → E.mult c.g k ≡ E.times k
  mult-base k h =
      ap (λ t. E.mult t k) (sym E.times_one)
      ∙ E.mult_lem 1 k (omega arith) w.some_order h
      ∙ ap E.times (
          ap (λ (t : ℕ). t % c.n) (let e : 1 * k ≡ k = omega arith in e)
          ∙ mod-eq_of_lt (omega (arith, h.1)))

  -- The public key of a scalar that fits is that multiple.
  pub public_key_inv :
      (private_key key : List ℕ)
      → Fits c.n (E.from_le private_key)
      → public_key c E private_key ≡ some key
      → key ≡ key_bytes (E.times (E.from_le private_key))
  unfolding public_key
  public_key_inv private_key key fits h =
      let d = E.from_le private_key in
      sym (given (scalar_valid c d) (key_bytes (E.mult c.g d)) key h)
      ∙ ap key_bytes (mult-base d fits)
    where
      given : (b : Bool) (x key : List ℕ) → (if not b then none else some x) ≡ some key → x ≡ key
      given b x key h = ground (arith, h)

  -- What a signature holds.
  pub record Signed (digest private_key nonce signature : List ℕ) : Type 0 where
    pub d_pos : 0 < E.from_le private_key
    pub d_lt : E.from_le private_key < c.n
    pub k_pos : 0 < E.from_le nonce
    pub k_lt : E.from_le nonce < c.n
    pub r : ℕ
    pub r_is : r ≡ less_order c (E.times (E.from_le nonce)).0
    pub r_pos : 0 < r
    pub r_lt : r < c.n
    pub s : ℕ
    pub s_is :
        s
        ≡ (E.from_le private_key * r % c.n + E.from_le nonce * digest_scalar c E digest % c.n) % c.n
    pub s_pos : 0 < s
    pub s_lt : s < c.n
    pub written : signature ≡ vli_to_be c.digits s ++ vli_to_be c.digits r

  -- What `sign` does with the first coordinate `x` of the nonce's point.
  abbrev sign_with : ℕ → List ℕ → List ℕ → List ℕ → Option (List ℕ)
  sign_with x digest private_key nonce =
      let d = E.from_le private_key in
      let k = E.from_le nonce in
      let e = digest_scalar c E digest in
      let r = less_order c x in
      let s = E.mod_add (E.mod_mult d r) (E.mod_mult k e) in
      if not (scalar_valid c d) || not (scalar_valid c k)
      then none
      else if r == 0
      then none
      else if s == 0
      then none
      else some (vli_to_be c.digits s ++ vli_to_be c.digits r)

  pub sign_with-Signed :
      (x : ℕ) (digest private_key nonce signature : List ℕ)
      → let k = E.from_le nonce in
        (scalar_valid c k ≡ true → x ≡ (E.times k).0)
        → sign_with x digest private_key nonce ≡ some signature
        → Signed digest private_key nonce signature
  sign_with-Signed x digest private_key nonce signature at h =
      let d = E.from_le private_key in
      let k = E.from_le nonce in
      let e = digest_scalar c E digest in
      let r = less_order c x in
      let s = E.mod_add (E.mod_mult d r) (E.mod_mult k e) in
      let a =
        given (scalar_valid c d) (scalar_valid c k) (r == 0) (s == 0)
          (vli_to_be c.digits s ++ vli_to_be c.digits r) signature h in
      let u = scalar_valid_inv c d a.0 in
      let v = scalar_valid_inv c k a.1 in
      let x_lt : x < (2 ^ 64) ^ c.digits = rw (at a.1) (E.valid_lem k v.0 v.1).1 in
      let below : (x : ℕ) → x % c.n < c.n = (λ x. mod_lt x) in
      let sum : s ≡ (d * r % c.n + k * e % c.n) % c.n =
        ap₂ (λ x y. E.mod_add x y) (E.mod_mult_lem d r) (E.mod_mult_lem k e)
        ∙ E.mod_add_lem (d * r % c.n) (k * e % c.n) (below (d * r)) (below (k * e)) in
      record {
        d_pos = u.0;
        d_lt = u.1;
        k_pos = v.0;
        k_lt = v.1;
        r = r;
        r_is = ap (λ t. less_order c t) (at a.1);
        r_pos = ground (arith, a.2);
        r_lt = less_order-lt c x (omega (arith, x_lt, w.order_fills));
        s = s;
        s_is = sum;
        s_pos = ground (arith, a.3);
        s_lt = rw sum (below (d * r % c.n + k * e % c.n));
        written = sym a.4;
      }
    where
      given :
          (a b y z : Bool) (x t : List ℕ)
          → (if not a || not b then none else if y then none else if z then none else some x)
            ≡ some t
          → (a ≡ true) × (b ≡ true) × (y ≡ false) × (z ≡ false) × (x ≡ t)
      given a b y z x t h = ground (arith, h)

      mod_lt : (x : ℕ) → x % c.n < c.n
      mod_lt x = omega (arith, w.some_order)

  pub sign-Signed :
      (digest private_key nonce signature : List ℕ)
      → Fits c.n (E.from_le nonce)
      → sign c E digest private_key nonce ≡ some signature
      → Signed digest private_key nonce signature
  unfolding sign
  sign-Signed digest private_key nonce signature fits h =
      let k = E.from_le nonce in
      sign_with-Signed (E.mult c.g k).0 digest private_key nonce signature
        (λ v. ap (λ p. p.0) (mult-base k fits)) h

  -- The scalars and the point of verification, from what a signature holds.
  pub record Checked (digest private_key nonce : List ℕ) (r s : ℕ) : Type 0 where
    pub first : E.mod_mult s (E.mod_inv (digest_scalar c E digest)) < c.n
    pub second : E.mod_mult (c.n - r) (E.mod_inv (digest_scalar c E digest)) < c.n
    pub again :
        (E.mod_mult s (E.mod_inv (digest_scalar c E digest))
            + E.mod_mult (c.n - r) (E.mod_inv (digest_scalar c E digest)) * E.from_le private_key)
          % c.n
        ≡ E.from_le nonce

  pub Signed-Checked :
      (digest private_key nonce signature : List ℕ) (f : ℕ)
      → length digest ≡ 8 * c.digits
      → Below 256 digest
      → f * digest_scalar c E digest % c.n ≡ 1
      → (g : Signed digest private_key nonce signature) → Checked digest private_key nonce g.r g.s
  Signed-Checked digest private_key nonce signature f h fits inverse g =
      let d = E.from_le private_key in
      let k = E.from_le nonce in
      let e = digest_scalar c E digest in
      let v = E.mod_inv e in
      let inv = E.mod_inv_lem e f (digest_scalar-lt digest h fits) inverse in
      let e1 : E.mod_mult g.s v ≡ g.s * v % c.n = E.mod_mult_lem g.s v in
      let e2 : E.mod_mult (c.n - g.r) v ≡ (c.n - g.r) * v % c.n = E.mod_mult_lem (c.n - g.r) v in
      record {
        first = omega (arith, e1, w.some_order);
        second = omega (arith, e2, w.some_order);
        again =
            ap₂ (λ (a : ℕ) (b : ℕ). (a + b * d) % c.n) e1 e2
            ∙ ap (λ (t : ℕ). (t * v % c.n + (c.n - g.r) * v % c.n * d) % c.n) g.s_is
            ∙ nonce_again c.n d g.r k e v (omega (arith, g.r_lt)) g.k_lt inv w.some_order;
      }
