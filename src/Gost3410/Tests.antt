-- ===== src/Gost3410/Tests.antt =====
-- The theorems at the orders of the curves, over the numbers modulo that order as the group.
use libpogost.Base.{
  ℕ, ◌*◌, ◌%◌, ◌≡◌, refl, true, some, List, ◌∷◌, ◌++◌, arith, each_below, take, replicate,
  Below-replicate,
}
use libpogost.Gost3410.{
  Curve, Fits, curve_512a, curve_256_xcha, Ecc, can_add, le_value, vli_to_le, vli_to_be, public_key,
  sign, digest_scalar, scalar_valid, less_order, verify, vko,
}
use libpogost.Kdf.{put_le64}
use libpogost.Gost3410.Instance.{line, numbers}
use libpogost.Gost3410.Sign.{IsCurve}
use libpogost.Gost3410.Verify.{verify_can_add, verify-sign}
use libpogost.Gost3410.Agree.{vko-vko}

curve_512a-IsCurve : IsCurve curve_512a
curve_512a-IsCurve = record {
  some_order = omega arith;
  order_fits = omega arith;
  order_fills = omega arith;
}

curve_256_xcha-IsCurve : IsCurve curve_256_xcha
curve_256_xcha-IsCurve = record {
  some_order = omega arith;
  order_fits = omega arith;
  order_fills = omega arith;
}

abbrev line_512 : Curve
line_512 = line 8 curve_512a.n

line_512-IsCurve : IsCurve line_512
line_512-IsCurve = record {
  some_order = omega arith;
  order_fits = omega arith;
  order_fills = omega arith;
}

abbrev group_512 : Ecc line_512
group_512 = numbers 8 curve_512a.n (omega arith) (omega arith)

-- The private keys 2 and 3, and the nonce 3.
abbrev bytes_of : ℕ → List ℕ
bytes_of x = x ∷ replicate 63 0

abbrev key_of : ℕ → List ℕ
key_of x = vli_to_le 8 x ++ vli_to_le 8 0

two-Fits : Fits line_512.n (group_512.from_le (bytes_of 2))
unfolding le_value
two-Fits = (omega arith, omega arith)

three-Fits : Fits line_512.n (group_512.from_le (bytes_of 3))
unfolding le_value
three-Fits = (omega arith, omega arith)

made_two : public_key line_512 group_512 (bytes_of 2) ≡ some (key_of 2)
unfolding public_key scalar_valid le_value
made_two = refl

made_three : public_key line_512 group_512 (bytes_of 3) ≡ some (key_of 3)
unfolding public_key scalar_valid le_value
made_three = refl

abbrev signature : List ℕ
signature = vli_to_be 8 9 ++ vli_to_be 8 3

signed : sign line_512 group_512 (replicate 64 0) (bytes_of 2) (bytes_of 3) ≡ some signature
unfolding sign scalar_valid le_value less_order digest_scalar
signed = refl

scalar_one : 1 * digest_scalar line_512 group_512 (replicate 64 0) % line_512.n ≡ 1
unfolding le_value less_order digest_scalar
scalar_one = refl

adds :
    verify_can_add line_512 group_512 (replicate 64 0) signature (group_512.from_le (bytes_of 2))
    ≡ true
unfolding verify_can_add can_add each_below le_value less_order digest_scalar vli_to_be put_le64
adds = refl

verify-sign_example : verify line_512 group_512 (key_of 2) (replicate 64 0) signature ≡ true
verify-sign_example =
    verify-sign line_512 group_512 (replicate 64 0) (bytes_of 2) (bytes_of 3) (key_of 2) signature 1
      line_512-IsCurve two-Fits three-Fits refl (Below-replicate 256 64 0 (omega arith)) scalar_one
      made_two signed adds

abbrev ukm : List ℕ
ukm = 3 ∷ replicate 15 0

products-Fits :
    (Fits line_512.n (group_512.from_le (bytes_of 2) * le_value (take 16 ukm) % line_512.n))
    × Fits line_512.n (group_512.from_le (bytes_of 3) * le_value (take 16 ukm) % line_512.n)
unfolding le_value
products-Fits = ((omega arith, omega arith), (omega arith, omega arith))

vko-vko_example :
    (shared_key : List ℕ) × (vko line_512 group_512 (key_of 3) (bytes_of 2) ukm ≡ some shared_key)
    × (vko line_512 group_512 (key_of 2) (bytes_of 3) ukm ≡ some shared_key)
vko-vko_example =
    vko-vko line_512 group_512 (bytes_of 2) (bytes_of 3) (key_of 2) (key_of 3) ukm line_512-IsCurve
      two-Fits three-Fits products-Fits.0 products-Fits.1 made_two made_three
