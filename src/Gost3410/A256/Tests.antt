-- ===== src/Gost3410/A256/Tests.antt =====
-- The theorem of the builds at the order of the 256-bit curve, over the numbers modulo it as the
-- group. The public key is the base point, which verification without the optimized functions treats
-- apart.
use libpogost.Base.{
  ℕ, ◌+◌, ◌*◌, ◌%◌, ◌<◌, ◌≡◌, refl, ap, true, none, some, List, ◌∷◌, ◌++◌, arith, replicate,
  Below-replicate,
}
use libpogost.Gost3410.{
  Point, Curve, Ecc, curve_256_xcha, le_value, vli_to_le, vli_to_be, scalar_valid, less_order,
  digest_scalar,
}
use libpogost.Gost3410.Sign.{IsCurve}
use libpogost.Gost3410.Instance.{line, numbers}
use libpogost.Gost3410.Verify.{verify_can_add}
use libpogost.Gost3410.A256
use libpogost.Gost3410.A256.{Optimized, Build, point_mult, public_bytes, nonce_x}
use libpogost.Gost3410.A256.Builds.{IsGroup, is_portable, verify-sign_builds}

abbrev line_256 : Curve
line_256 = line 4 curve_256_xcha.n

line_256-IsCurve : IsCurve line_256
line_256-IsCurve = record {
  some_order = omega arith;
  order_fits = omega arith;
  order_fills = omega arith;
}

abbrev group : Ecc line_256
group = numbers 4 curve_256_xcha.n (omega arith) (omega arith)

line_256-IsGroup : IsGroup line_256 group
line_256-IsGroup = record { apart = λ a b p q r s h. ap (λ (t : Point). t.0) h }

abbrev both_words : Point → List ℕ × List ℕ
both_words p = (vli_to_le 4 p.0, vli_to_le 4 p.1)

abbrev optimized : Optimized line_256 group
optimized = record {
  point_mul_g = λ k. both_words (le_value k, 0);
  point_mul_two =
      λ k1 k2 x y. both_words ((le_value k1 + le_value k2 * le_value x) % curve_256_xcha.n, 0);
  point_mul_g_lem = λ k h. refl;
  point_mul_two_lem = λ k1 k2 x y d p q h r.
      ap (λ (t : Point). both_words ((le_value k1 + le_value k2 * t.0) % curve_256_xcha.n, 0)) h;
}

abbrev one : List ℕ
one = 1 ∷ replicate 31 0

abbrev key : List ℕ
key = vli_to_le 4 1 ++ vli_to_le 4 0

made : A256.public_key line_256 group (some optimized) one ≡ some key
unfolding A256.public_key public_bytes scalar_valid le_value
made = refl

abbrev signature : List ℕ
signature = vli_to_be 4 2 ++ vli_to_be 4 1

signed : A256.sign line_256 group none (replicate 32 0) one one ≡ some signature
unfolding A256.sign nonce_x point_mult scalar_valid le_value less_order digest_scalar
signed = refl

scalar_one : 1 * digest_scalar line_256 group (replicate 32 0) % line_256.n ≡ 1
unfolding le_value less_order digest_scalar
scalar_one = refl

-- The private key is 1, so nothing is asked of the additions.
adds :
    is_portable {c = line_256} {E = group} none ≡ true
    → 1 < group.from_le one
    → verify_can_add line_256 group (replicate 32 0) signature (group.from_le one) ≡ true
unfolding le_value
adds portable h = absurd (omega (arith, h))

verify-sign_builds_example : A256.verify line_256 group none key (replicate 32 0) signature ≡ true
verify-sign_builds_example =
    verify-sign_builds line_256 group (some optimized) none none (replicate 32 0) one one key
      signature 1 line_256-IsCurve line_256-IsGroup refl (Below-replicate 256 32 0 (omega arith))
      scalar_one made signed adds
