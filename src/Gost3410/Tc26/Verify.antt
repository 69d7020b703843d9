-- ===== src/Gost3410/Tc26/Verify.antt =====
-- What is signed over the curve of TC26 is accepted.
use libpogost.Base.{
  ℕ, ◌+◌, ◌-◌, ◌*◌, ◌%◌, ◌^◌, ◌≤◌, ◌<◌, ◌≡◌, refl, sym, ap, ap₂, ◌∙◌, true, some, List, ◌++◌, arith,
  ◌==◌, ==_iff, take, drop, take-append, drop-append,
}
use native.Mathlib.Nat.{mod-mod}
use libpogost.Gost3410.{Point, vli_to_be}
use libpogost.Gost3410.Words.{length-vli_to_be}
use libpogost.Gost3410.Modulo.{mod_plus, nonce_again}
use libpogost.Gost3410.Tc26.{
  EccCurve, Vli, scalar_valid, scalar_reduce, point_add, point_mult, digest_scalar, public_key,
  sign, read_point, verify,
}
use libpogost.Gost3410.Tc26.Scalar.{scalar_reduce_lem}
use libpogost.Gost3410.Tc26.Points.{Multiples, point_mult_lem, point_mult-base}
use libpogost.Gost3410.Tc26.Sign.{
  IsCurve, scalar_valid_intro, from_be-vli_to_be, digest_scalar-lt, read_point-public_key,
  sign-Signed,
}

module _ (c : EccCurve) (V : Vli c) (G : Multiples c V) (w : IsCurve c)
    (private_key nonce digest : List ℕ) where
  abbrev d : ℕ
  d = V.from_le private_key

  abbrev k : ℕ
  k = V.from_le nonce

  abbrev e : ℕ
  e = digest_scalar c V digest

  abbrev v : ℕ
  v = V.mod_inv e c.n

  -- The point that verification computes is the one that the signature was made with.
  point_again :
      (r s : ℕ)
      → d < c.n
      → k < c.n
      → r ≤ c.n
      → v * e % c.n ≡ 1
      → s ≡ (d * r % c.n + k * e % c.n) % c.n
      → point_add c V
          (point_mult c V c.g (V.mod_mult_slow s v c.n))
          (point_mult c V (G.times d) (V.mod_mult_slow (c.n - r) v c.n))
        ≡ G.times k
  point_again r s d_lt k_lt hr inv s_is =
      let pos : 0 < c.n = omega (arith, w.some_order) in
      let z1 = s * v % c.n in
      let z2 = (c.n - r) * v % c.n in
      let below : (x : ℕ) → x % c.n < c.n = (λ x. mod_lt x) in
      let again : (z1 % c.n + z2 * d % c.n) % c.n ≡ k =
        mod_plus c.n (z1 % c.n) (z2 * d % c.n) z1 (z2 * d) (mod-mod z1 c.n) (mod-mod (z2 * d) c.n)
        ∙ ap (λ (t : ℕ). (t * v % c.n + z2 * d) % c.n) s_is
        ∙ nonce_again c.n d r k e v hr k_lt inv w.some_order in
      ap₂ (λ x y. point_add c V (point_mult c V c.g x) (point_mult c V (G.times d) y))
        (V.mod_mult_slow_lem s v c.n pos) (V.mod_mult_slow_lem (c.n - r) v c.n pos)
      ∙ ap₂ (λ p q. point_add c V p q) (point_mult-base c V G pos z1 w.some_order)
          (point_mult_lem c V G pos z2 d d_lt)
      ∙ G.added (z1 % c.n) (z2 * d % c.n) (below z1) (below (z2 * d))
      ∙ ap G.times again
    where
      mod_lt : (x : ℕ) → x % c.n < c.n
      mod_lt x = omega (arith, w.some_order)

  verify_lem :
      (key : List ℕ) (r s : ℕ)
      → V.valid (read_point c V key) ≡ true
      → scalar_valid c r ≡ true
      → scalar_valid c s ≡ true
      → r < (2 ^ 64) ^ c.digits
      → s < (2 ^ 64) ^ c.digits
      → verify c V key digest (vli_to_be c.digits s ++ vli_to_be c.digits r) ≡ (
          scalar_reduce c
            (point_add c V
              (point_mult c V c.g (V.mod_mult_slow s v c.n))
              (point_mult c V (read_point c V key) (V.mod_mult_slow (c.n - r) v c.n))).0
          == r)
  unfolding verify
  verify_lem key r s ok rv sv rf sf =
      let x = vli_to_be c.digits s in
      let y = vli_to_be c.digits r in
      let l = length-vli_to_be c.digits s in
      let first : V.from_be (take (8 * c.digits) (x ++ y)) ≡ s =
        ap (λ t. V.from_be t) (take-append (8 * c.digits) x y (sym l))
        ∙ from_be-vli_to_be c V s sf in
      let second : V.from_be (drop (8 * c.digits) (x ++ y)) ≡ r =
        ap (λ t. V.from_be t) (drop-append (8 * c.digits) x y (sym l))
        ∙ from_be-vli_to_be c V r rf in
      rw (first, second, ok, rv, sv) refl

-- Over a curve whose order fits its digits and whose formulas are the group of the multiples of the
-- base point, and for a digest whose scalar has an inverse `f` modulo the order: the signature that
-- sign makes with a private key is accepted by verify with the public key.
pub verify-sign_tc26 :
    (c : EccCurve) (V : Vli c) (digest private_key nonce key signature : List ℕ) (f : ℕ)
    → IsCurve c
    → Multiples c V
    → f * digest_scalar c V digest % c.n ≡ 1
    → public_key c V private_key ≡ some key
    → sign c V digest private_key nonce ≡ some signature
    → verify c V key digest signature ≡ true
verify-sign_tc26 c V digest private_key nonce key signature f w G inverse made signed =
    let d = V.from_le private_key in
    let e = digest_scalar c V digest in
    let p = read_point-public_key c V G w private_key key made in
    let g = sign-Signed c V G w digest private_key nonce signature signed in
    let inv = V.mod_inv_lem e f c.n (digest_scalar-lt c V G w digest) inverse in
    let pos : 0 < c.n = omega (arith, w.some_order) in
    let at = (G.times (V.from_le nonce)).0 in
    let r_lt : g.r < c.n = omega (arith, g.r_is, scalar_reduce_lem c at pos, pos) in
    let s_lt : g.s < c.n = rw g.s_is (omega (arith, w.some_order)) in
    let ok = ap (λ t. V.valid t) p.2 ∙ G.valid d p.0 p.1 in
    let run =
      verify_lem c V G w private_key nonce digest key g.r g.s ok
        (scalar_valid_intro c g.r g.r_pos r_lt) (scalar_valid_intro c g.s g.s_pos s_lt)
        (omega (arith, r_lt, w.order_fits)) (omega (arith, s_lt, w.order_fits)) in
    let point =
      point_again c V G w private_key nonce digest g.r g.s p.1 g.k_lt (omega (arith, r_lt)) inv
        g.s_is in
    let same = λ (t : Point).
      point_add c V (point_mult c V c.g (V.mod_mult_slow g.s (V.mod_inv e c.n) c.n))
        (point_mult c V t (V.mod_mult_slow (c.n - g.r) (V.mod_inv e c.n) c.n)) in
    ap (λ t. verify c V key digest t) g.written
    ∙ run
    ∙ ap (λ t. scalar_reduce c t.0 == g.r) (ap same p.2 ∙ point)
    ∙ (==_iff _ g.r).1 (sym g.r_is)
