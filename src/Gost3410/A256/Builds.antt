-- ===== src/Gost3410/A256/Builds.antt =====
-- Signatures that one build makes are accepted by another.
use libpogost.Base.{
  ℕ, zero, suc, ◌+◌, ◌-◌, ◌*◌, ◌%◌, ◌<◌, ◌≡◌, refl, sym, ap, ap₂, ◌∙◌, inl, inr, Bool, true, false,
  not, ◌&&◌, none, some, List, ◌++◌, arith, ◌==◌, ==_iff, if◌then◌else◌, Bool-cases, length, take,
  drop, Below,
}
use libpogost.Gost3410.{
  Point, Curve, can_add, Ecc, vli_to_le, scalar_valid, digest_scalar, read_point,
}
use libpogost.Gost3410.Words.{from_le-vli_to_le}
use libpogost.Gost3410.Sign.{
  IsCurve, scalar_valid_inv, scalar_valid_intro, key_bytes, read_point-key_bytes, Signed,
  sign_with-Signed, Signed-Checked,
}
use libpogost.Gost3410.Verify.{signature_s, signature_r, verify_can_add, signature_read}
use libpogost.Gost3410.A256
use libpogost.Gost3410.A256.{
  Optimized, Build, point_mult, public_bytes, nonce_x, sum_x, is_reduced_to,
}

-- The multiples of the base point are apart.
pub record IsGroup (c : Curve) (E : Ecc c) : Type 0 where
  pub apart : (a b : ℕ) → 0 < a → a < c.n → 0 < b → b < c.n → E.times a ≡ E.times b → a ≡ b

-- A build without integers of 128 bits.
abbrev pub is_portable : {c : Curve} {E : Ecc c} → Build c E → Bool
is_portable (some o) = false
is_portable none = true

module _ (c : Curve) (E : Ecc c) (w : IsCurve c) (G : IsGroup c E) where
  point_mult_lem : (k : ℕ) → 0 < k → k < c.n → point_mult c E c.g k ≡ E.times k
  unfolding point_mult
  point_mult_lem k pos h = E.mult_shamir-zero k pos h

  bytes_lem :
      (build : Build c E) (private_key : List ℕ)
      → scalar_valid c (E.from_le private_key) ≡ true
      → let p = E.times (E.from_le private_key) in
        public_bytes c E build private_key ≡ (vli_to_le c.digits p.0, vli_to_le c.digits p.1)
  unfolding public_bytes
  bytes_lem (some o) private_key h = o.point_mul_g_lem private_key h
  bytes_lem none private_key h =
      let v = scalar_valid_inv c (E.from_le private_key) h in
      ap (λ (p : Point). (vli_to_le c.digits p.0, vli_to_le c.digits p.1))
        (point_mult_lem (E.from_le private_key) v.0 v.1)

  public_key_inv :
      (build : Build c E) (private_key key : List ℕ)
      → A256.public_key c E build private_key ≡ some key
      → key ≡ key_bytes c E w (E.times (E.from_le private_key))
  unfolding A256.public_key
  public_key_inv build private_key key h =
      let d = E.from_le private_key in
      let q = public_bytes c E build private_key in
      let a = given (scalar_valid c d) (q.0 ++ q.1) key h in
      sym a.1 ∙ ap (λ (q : List ℕ × List ℕ). q.0 ++ q.1) (bytes_lem build private_key a.0)
    where
      given :
          (b : Bool) (x key : List ℕ)
          → (if not b then none else some x) ≡ some key
          → (b ≡ true) × (x ≡ key)
      given b x key h = ground (arith, h)

  nonce_x_lem :
      (build : Build c E) (nonce : List ℕ)
      → scalar_valid c (E.from_le nonce) ≡ true
      → nonce_x c E build nonce ≡ (E.times (E.from_le nonce)).0
  unfolding nonce_x
  nonce_x_lem (some o) nonce h =
      let k = E.from_le nonce in
      let v = scalar_valid_inv c k h in
      ap (λ q. E.from_le q.0) (o.point_mul_g_lem nonce h)
      ∙ from_le-vli_to_le c E (E.times k).0 (E.valid_lem k v.0 v.1).1
  nonce_x_lem none nonce h =
      let v = scalar_valid_inv c (E.from_le nonce) h in
      ap (λ p. p.0) (point_mult_lem (E.from_le nonce) v.0 v.1)

  sign-Signed :
      (build : Build c E) (digest private_key nonce signature : List ℕ)
      → A256.sign c E build digest private_key nonce ≡ some signature
      → Signed c E w digest private_key nonce signature
  unfolding A256.sign
  sign-Signed build digest private_key nonce signature h =
      sign_with-Signed c E w (nonce_x c E build nonce) digest private_key nonce signature
        (nonce_x_lem build nonce) h

  -- The point that verification computes: by the optimized functions, by one multiplication if the
  -- key is the base point, and by two otherwise.
  sum_x_lem :
      (build : Build c E) (key : List ℕ) (z1 z2 d k : ℕ)
      → let q = read_point c E key in
        q ≡ E.times d
        → 0 < d
        → d < c.n
        → 0 < k
        → k < c.n
        → z1 < c.n
        → z2 < c.n
        → (z1 + z2 * d) % c.n ≡ k
        → (is_portable build ≡ true → 1 < d → can_add c z1 z2 d ≡ true)
        → sum_x c E build z1 z2 q key ≡ some (E.times k).0
  unfolding sum_x read_point
  sum_x_lem (some o) key z1 z2 d k q d_pos d_lt k_pos k_lt h1 h2 again adds =
      let x = take (8 * c.digits) key in
      let y = drop (8 * c.digits) key in
      let k1 = vli_to_le c.digits z1 in
      let k2 = vli_to_le c.digits z2 in
      let sum : (E.from_le k1 + E.from_le k2 * d) % c.n ≡ k =
        ap₂ (λ (a : ℕ) (b : ℕ). (a + b * d) % c.n)
          (from_le-vli_to_le c E z1 (omega (arith, h1, w.order_fits)))
          (from_le-vli_to_le c E z2 (omega (arith, h2, w.order_fits)))
        ∙ again in
      ap (λ r. some (E.from_le r.0))
        (o.point_mul_two_lem k1 k2 x y d d_pos d_lt q (omega (arith, sum, k_pos)))
      ∙ ap (λ (t : ℕ). some (E.from_le (vli_to_le c.digits (E.times t).0))) sum
      ∙ ap some (from_le-vli_to_le c E (E.times k).0 (E.valid_lem k k_pos k_lt).1)
  sum_x_lem none key z1 z2 d k q d_pos d_lt k_pos k_lt h1 h2 again adds =
      let p = read_point c E key in
      elim (Bool-cases ((p.0 == c.g.0) && (p.1 == c.g.1))) [
        | inl e ↦
            let both = halves (p.0 == c.g.0) (p.1 == c.g.1) e in
            let at_base : p ≡ c.g =
              ap₂ (λ s t. (s, t)) ((==_iff p.0 c.g.0).0 both.0) ((==_iff p.1 c.g.1).0 both.1) in
            let one : d ≡ 1 =
              G.apart d 1 d_pos d_lt (omega arith) w.some_order
                (sym q ∙ at_base ∙ sym E.times_one) in
            let sum : E.mod_add z1 z2 ≡ k =
              E.mod_add_lem z1 z2 h1 h2
              ∙ ap (λ (t : ℕ). (z1 + t) % c.n)
                  (let s : z2 ≡ z2 * 1 = omega arith in s ∙ ap (λ (t : ℕ). z2 * t) (sym one))
              ∙ again in
            let some_k : (k == 0) ≡ false = ground (arith, k_pos) in
            rw (e, sum, some_k, point_mult_lem k k_pos k_lt) refl
        | inr e ↦
            let other : 1 < d = elsewhere d d_pos q e in
            let point =
              E.mult_shamir_lem z1 z2 d d_pos d_lt h1 h2 (adds refl other)
                (omega (arith, again, k_pos))
              ∙ ap E.times again in
            rw (e, q, point) refl
      ]
    where
      halves : (a b : Bool) → (a && b) ≡ true → (a ≡ true) × (b ≡ true)
      halves a b h = ground (arith, h)

      elsewhere :
          (d : ℕ)
          → 0 < d
          → (E.from_le (take (8 * c.digits) key), E.from_le (drop (8 * c.digits) key)) ≡ E.times d
          → ((E.from_le (take (8 * c.digits) key) == c.g.0)
              && (E.from_le (drop (8 * c.digits) key) == c.g.1))
            ≡ false
          → 1 < d
      elsewhere zero pos q e = absurd (omega arith)
      elsewhere (suc zero) pos q e =
          let at = q ∙ E.times_one in
          let x =
            (==_iff (E.from_le (take (8 * c.digits) key)) c.g.0).1 (ap (λ (p : Point). p.0) at) in
          let y =
            (==_iff (E.from_le (drop (8 * c.digits) key)) c.g.1).1 (ap (λ (p : Point). p.1) at) in
          absurd (ground (arith, x, y, e))
      elsewhere (suc (suc d)) pos q e = omega arith

-- Over a curve whose order fills its digits up to one bit, with the multiples of the base point
-- apart, and for a digest of bytes whose scalar has an inverse `f` modulo the order: with three
-- builds, whether their compilers have integers of 128 bits or not, the signature that one makes
-- with a private key is accepted by another with the public key that a third has made. Where the
-- build that verifies has no such integers and the private key is not 1, this is unless an addition
-- of verify meets equal or opposite points.
pub verify-sign_builds :
    (c : Curve) (E : Ecc c) (maker signer checker : Build c E)
    (digest private_key nonce key signature : List ℕ) (f : ℕ)
    → IsCurve c
    → IsGroup c E
    → length digest ≡ 8 * c.digits
    → Below 256 digest
    → f * digest_scalar c E digest % c.n ≡ 1
    → A256.public_key c E maker private_key ≡ some key
    → A256.sign c E signer digest private_key nonce ≡ some signature
    → (is_portable checker ≡ true
        → 1 < E.from_le private_key
        → verify_can_add c E digest signature (E.from_le private_key) ≡ true)
    → A256.verify c E checker key digest signature ≡ true
unfolding A256.verify is_reduced_to verify_can_add
verify-sign_builds c E maker signer checker digest private_key nonce key signature f w G h fits
      inverse made signed adds =
    let d = E.from_le private_key in
    let k = E.from_le nonce in
    let v = E.mod_inv (digest_scalar c E digest) in
    let g = sign-Signed c E w G signer digest private_key nonce signature signed in
    let t = Signed-Checked c E w digest private_key nonce signature f h fits inverse g in
    let read =
      signature_read c E g.r g.s (omega (arith, g.r_lt, w.order_fits))
        (omega (arith, g.s_lt, w.order_fits)) in
    let s_is = ap (λ t. signature_s c E t) g.written ∙ read.0 in
    let r_is = ap (λ t. signature_r c E t) g.written ∙ read.1 in
    let q : read_point c E key ≡ E.times d =
      ap (λ t. read_point c E t) (public_key_inv c E w G maker private_key key made)
      ∙ read_point-key_bytes c E w d g.d_pos g.d_lt in
    let no_meeting =
      ap₂ (λ x y. can_add c (E.mod_mult x v) (E.mod_mult (c.n - y) v) d) (sym s_is) (sym r_is) in
    let x =
      sum_x_lem c E w G checker key (E.mod_mult g.s v) (E.mod_mult (c.n - g.r) v) d k q g.d_pos
        g.d_lt g.k_pos g.k_lt t.first t.second t.again (λ a b. no_meeting ∙ adds a b) in
    let ok = ap (λ t. E.valid t) q ∙ (E.valid_lem d g.d_pos g.d_lt).0 in
    rw
      (
        s_is,
        r_is,
        ok,
        scalar_valid_intro c g.r g.r_pos g.r_lt,
        scalar_valid_intro c g.s g.s_pos g.s_lt,
        x,
      )
      ((==_iff _ g.r).1 (sym g.r_is))
