-- ===== src/Gost3410/Verify.antt =====
-- What is signed with a private key is accepted with its public key.
use libpogost.Base.{
  ℕ, ◌-◌, ◌*◌, ◌%◌, ◌^◌, ◌<◌, ◌≡◌, sym, ap, ap₂, ◌∙◌, Bool, true, some, List, ◌++◌, arith, ==_iff,
  length, take, drop, take-append, drop-append, Below,
}
use libpogost.Gost3410.{
  Curve, Fits, can_add, Ecc, vli_to_be, digest_scalar, public_key, sign, read_point, verify,
}
use libpogost.Gost3410.Words.{length-vli_to_be, from_be-vli_to_be}
use libpogost.Gost3410.Sign.{
  IsCurve, scalar_valid_intro, read_point-key_bytes, public_key_inv, sign-Signed, Signed-Checked,
}

module _ (c : Curve) (E : Ecc c) where
  -- The numbers of a signature, and the scalars of verification.
  abbrev pub signature_s : List ℕ → ℕ
  signature_s signature = E.from_be (take (8 * c.digits) signature)

  abbrev pub signature_r : List ℕ → ℕ
  signature_r signature = E.from_be (drop (8 * c.digits) signature)

  -- In the multiplication that `verify` makes, for the public key of `d`, no addition meets equal or
  -- opposite points.
  unfoldable pub verify_can_add : List ℕ → List ℕ → ℕ → Bool
  verify_can_add digest signature d =
      let e = E.mod_inv (digest_scalar c E digest) in
      can_add c (E.mod_mult (signature_s signature) e) (E.mod_mult (c.n - signature_r signature) e)
        d

  pub signature_read :
      (r s : ℕ)
      → r < (2 ^ 64) ^ c.digits
      → s < (2 ^ 64) ^ c.digits
      → let signature = vli_to_be c.digits s ++ vli_to_be c.digits r in
        (signature_s signature ≡ s) × (signature_r signature ≡ r)
  signature_read r s rf sf =
      let x = vli_to_be c.digits s in
      let y = vli_to_be c.digits r in
      let l = length-vli_to_be c.digits s in
      (
        ap (λ t. E.from_be t) (take-append (8 * c.digits) x y (sym l)) ∙ from_be-vli_to_be c E s sf,
        ap (λ t. E.from_be t) (drop-append (8 * c.digits) x y (sym l)) ∙ from_be-vli_to_be c E r rf,
      )

-- Over a curve whose order fills its digits up to one bit, for a private key and a nonce from 2 to
-- n - 3 and for a digest of bytes whose scalar has an inverse `f` modulo the order n: the signature
-- that sign makes is accepted by verify with the public key, unless an addition of verify meets
-- equal or opposite points.
pub verify-sign :
    (c : Curve) (E : Ecc c) (digest private_key nonce key signature : List ℕ) (f : ℕ)
    → IsCurve c
    → Fits c.n (E.from_le private_key)
    → Fits c.n (E.from_le nonce)
    → length digest ≡ 8 * c.digits
    → Below 256 digest
    → f * digest_scalar c E digest % c.n ≡ 1
    → public_key c E private_key ≡ some key
    → sign c E digest private_key nonce ≡ some signature
    → verify_can_add c E digest signature (E.from_le private_key) ≡ true
    → verify c E key digest signature ≡ true
unfolding verify verify_can_add
verify-sign c E digest private_key nonce key signature f w df kf h fits inverse made signed adds =
    let d = E.from_le private_key in
    let k = E.from_le nonce in
    let v = E.mod_inv (digest_scalar c E digest) in
    let g = sign-Signed c E w digest private_key nonce signature kf signed in
    let t = Signed-Checked c E w digest private_key nonce signature f h fits inverse g in
    let read =
      signature_read c E g.r g.s (omega (arith, g.r_lt, w.order_fits))
        (omega (arith, g.s_lt, w.order_fits)) in
    let s_is = ap (λ t. signature_s c E t) g.written ∙ read.0 in
    let r_is = ap (λ t. signature_r c E t) g.written ∙ read.1 in
    let q : read_point c E key ≡ E.times d =
      ap (λ t. read_point c E t) (public_key_inv c E w private_key key df made)
      ∙ read_point-key_bytes c E w d g.d_pos g.d_lt in
    let no_meeting : can_add c (E.mod_mult g.s v) (E.mod_mult (c.n - g.r) v) d ≡ true =
      ap₂ (λ x y. can_add c (E.mod_mult x v) (E.mod_mult (c.n - y) v) d) (sym s_is) (sym r_is)
      ∙ adds in
    let point =
      E.mult_shamir_lem (E.mod_mult g.s v) (E.mod_mult (c.n - g.r) v) d g.d_pos g.d_lt t.first
        t.second no_meeting (omega (arith, t.again, g.k_pos))
      ∙ ap E.times t.again in
    rw
      (
        q,
        s_is,
        r_is,
        (E.valid_lem d g.d_pos g.d_lt).0,
        scalar_valid_intro c g.r g.r_pos g.r_lt,
        scalar_valid_intro c g.s g.s_pos g.s_lt,
        point,
      )
      ((==_iff _ g.r).1 (sym g.r_is))
