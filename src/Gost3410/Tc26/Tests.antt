-- ===== src/Gost3410/Tc26/Tests.antt =====
-- The theorems over a small curve: y ^ 2 = x ^ 3 + 6 * x + 5 modulo 7, whose point (2, 2) has
-- order 7.
use libpogost.Base.{
  ℕ, zero, suc, ◌+◌, ◌*◌, ◌/◌, ◌%◌, ◌^◌, ◌<◌, ◌≡◌, refl, ap₂, ◌∙◌, Bool, true, false, not, ◌&&◌,
  some, List, ◌∷◌, ◌++◌, arith, ltb, ◌==◌, ==_iff, each_below, by_each_below, take, replicate,
}
use mathlib.Core.Path.{subst}
use mathlib.Core.List.{reverse}
use libpogost.Gost3410.{Point, le_value, vli_to_le, vli_to_be}
use libpogost.Gost3410.Search.{inverse, inverse_lem, num_bits, num_bits_lem}
use libpogost.Gost3410.Tc26.{
  EccCurve, curve_256tc26a, Vli, mod_sub, point_inf, scalar_valid, scalar_reduce, point_double,
  point_chord, point_add, point_mult, digest_scalar, public_key, sign, verify, vko, ecdh,
}
use libpogost.Gost3410.Tc26.Scalar.{scalar_reduce_lem}
use libpogost.Gost3410.Tc26.Points.{Multiples, point_mult_lem}
use libpogost.Gost3410.Tc26.Sign.{IsCurve}
use libpogost.Gost3410.Tc26.Verify.{verify-sign_tc26}
use libpogost.Gost3410.Tc26.Agree.{vko-vko_tc26, ecdh-ecdh_tc26}

abbrev small : EccCurve
small = record { digits = 1; p = 7; n = 7; a = 6; b = 5; g = (2, 2) }

abbrev on_curve : Point → Bool
on_curve q = q.1 * q.1 % 7 == ((q.0 * q.0 * q.0 + 6 * q.0 + 5) % 7)

abbrev arithmetic : Vli small
arithmetic = record {
  from_le = le_value;
  from_be = λ xs. le_value (reverse xs);
  mod_mult_slow = λ x y m. x * y % m;
  mod_add = λ x y m. (x + y) % m;
  mod_inv = λ e m. inverse m e;
  num_bits = num_bits;
  valid = on_curve;
  from_le_lem = λ xs h. refl;
  from_be_lem = λ xs h. refl;
  mod_mult_slow_lem = λ x y m h. refl;
  mod_add_lem = λ x y m p q. refl;
  mod_inv_lem = λ e f m h inv. inverse_lem m e f h inv;
  num_bits_lem = num_bits_lem;
}

abbrev times : ℕ → Point
times zero = (0, 0)
times (suc zero) = (2, 2)
times (suc (suc zero)) = (4, 3)
times (suc (suc (suc zero))) = (3, 1)
times (suc (suc (suc (suc zero)))) = (3, 6)
times (suc (suc (suc (suc (suc zero))))) = (4, 4)
times (suc (suc (suc (suc (suc (suc k)))))) = (2, 5)

same : Point → Point → Bool
same p q = (p.0 == q.0) && (p.1 == q.1)

same_inv : (p q : Point) → same p q ≡ true → p ≡ q
unfolding same
same_inv p q h =
    let r = both (p.0 == q.0) (p.1 == q.1) h in
    ap₂ (λ s t. (s, t)) ((==_iff p.0 q.0).0 r.0) ((==_iff p.1 q.1).0 r.1)
  where
    both : (a b : Bool) → (a && b) ≡ true → (a ≡ true) × (b ≡ true)
    both a b h = ground (arith, h)

doubled_test : ℕ → Bool
doubled_test x = same (point_double small arithmetic (times x)) (times ((x + x) % 7))

doubled_tests : each_below doubled_test 7 ≡ true
unfolding each_below doubled_test same point_double mod_sub point_inf inverse
doubled_tests = refl

-- The two numbers below 7 are the digits of one number below 49.
added_test : ℕ → Bool
added_test k =
    let x = k / 7 in
    let y = k % 7 in same (point_add small arithmetic (times x) (times y)) (times ((x + y) % 7))

added_tests : each_below added_test 49 ≡ true
unfolding each_below added_test same point_add point_double point_chord mod_sub point_inf inverse
added_tests = refl

kept_test : ℕ → Bool
kept_test x = let q = times (suc x) in (on_curve q && not (point_inf q)) && (ltb q.0 7 && ltb q.1 7)

kept_tests : each_below kept_test 6 ≡ true
unfolding each_below kept_test point_inf
kept_tests = refl

kept :
    (x : ℕ)
    → 0 < x
    → x < 7
    → (on_curve (times x) ≡ true)
      × (point_inf (times x) ≡ false)
      × ((times x).0 < 7)
      × ((times x).1 < 7)
unfolding kept_test
kept zero pos h = absurd (omega arith)
kept (suc x) pos h =
    let q = times (suc x) in
    read q (on_curve q) (point_inf q) refl refl
      (by_each_below kept_test 6 kept_tests x (omega arith))
  where
    flags :
        (a b c d : Bool)
        → ((a && not b) && (c && d)) ≡ true
        → (a ≡ true) × (b ≡ false) × (c ≡ true) × (d ≡ true)
    flags a b c d h = ground (arith, h)

    read :
        (q : Point) (a b : Bool)
        → on_curve q ≡ a
        → point_inf q ≡ b
        → ((a && not b) && (ltb q.0 7 && ltb q.1 7)) ≡ true
        → (on_curve q ≡ true) × (point_inf q ≡ false) × (q.0 < 7) × (q.1 < 7)
    read q a b e f h =
        let r = flags a b (ltb q.0 7) (ltb q.1 7) h in
        (e ∙ r.0, f ∙ r.1, ground (arith, r), ground (arith, r))

group : Multiples small arithmetic
unfolding doubled_test added_test
group = record {
  times = times;
  times_zero = refl;
  times_one = refl;
  doubled = λ x h. same_inv _ _ (by_each_below doubled_test 7 doubled_tests x h);
  added = λ x y h k. added_pair x y h k;
  finite = λ x pos h. (kept x pos h).1;
  valid = λ x pos h. (kept x pos h).0;
  fits = λ x h. fitting x h;
}
  where
    added_pair :
        (x y : ℕ)
        → x < 7
        → y < 7
        → point_add small arithmetic (times x) (times y) ≡ times ((x + y) % 7)
    added_pair x y h k =
        let p = same_inv _ _ (by_each_below added_test 49 added_tests (7 * x + y) (omega arith)) in
        let ex : (7 * x + y) / 7 ≡ x = omega arith in
        let ey : (7 * x + y) % 7 ≡ y = omega arith in
        let pair =
          λ (s t : ℕ). (point_add small arithmetic (times s) (times t) ≡ times ((s + t) % 7)) in
        subst (λ s. pair s y) ex (subst (λ t. pair ((7 * x + y) / 7) t) ey p)

    fitting : (x : ℕ) → x < 7 → ((times x).0 < (2 ^ 64) ^ 1) × ((times x).1 < (2 ^ 64) ^ 1)
    fitting zero h = (omega arith, omega arith)
    fitting (suc x) h =
        let r = kept (suc x) (omega arith) h in (omega (arith, r.2), omega (arith, r.3))

small-IsCurve : IsCurve small
small-IsCurve = record { some_order = omega arith; order_fits = omega arith }

curve_256tc26a-IsCurve : IsCurve curve_256tc26a
curve_256tc26a-IsCurve = record { some_order = omega arith; order_fits = omega arith }

reduced_test :
    scalar_reduce curve_256tc26a (2 * curve_256tc26a.n + 5)
    ≡ (2 * curve_256tc26a.n + 5) % curve_256tc26a.n
reduced_test = scalar_reduce_lem curve_256tc26a (2 * curve_256tc26a.n + 5) (omega arith)

point_mult_lem_example : point_mult small arithmetic (group.times 3) 6 ≡ group.times (6 * 3 % 7)
point_mult_lem_example = point_mult_lem small arithmetic group (omega arith) 6 3 (omega arith)

abbrev bytes_of : ℕ → List ℕ
bytes_of x = x ∷ replicate 7 0

abbrev key_of : Point → List ℕ
key_of q = vli_to_le 1 q.0 ++ vli_to_le 1 q.1

made_two : public_key small arithmetic (bytes_of 2) ≡ some (key_of (4, 3))
unfolding public_key scalar_valid le_value point_mult point_double point_add point_chord mod_sub
    point_inf inverse num_bits
made_two = refl

made_three : public_key small arithmetic (bytes_of 3) ≡ some (key_of (3, 1))
unfolding public_key scalar_valid le_value point_mult point_double point_add point_chord mod_sub
    point_inf inverse num_bits
made_three = refl

abbrev signature : List ℕ
signature = vli_to_be 1 2 ++ vli_to_be 1 3

signed : sign small arithmetic (bytes_of 1) (bytes_of 2) (bytes_of 3) ≡ some signature
unfolding sign digest_scalar scalar_reduce scalar_valid le_value point_mult point_double point_add
    point_chord mod_sub point_inf inverse num_bits
signed = refl

scalar_one : 1 * digest_scalar small arithmetic (bytes_of 1) % 7 ≡ 1
unfolding digest_scalar scalar_reduce le_value
scalar_one = refl

verify-sign_tc26_example : verify small arithmetic (key_of (4, 3)) (bytes_of 1) signature ≡ true
verify-sign_tc26_example =
    verify-sign_tc26 small arithmetic (bytes_of 1) (bytes_of 2) (bytes_of 3) (key_of (4, 3))
      signature 1 small-IsCurve group scalar_one made_two signed

ukm_one : 2 * (le_value (take 16 (1 ∷ replicate 15 0)) * 4) % 7 ≡ 1
unfolding le_value
ukm_one = refl

vko-vko_tc26_example :
    (shared_key : List ℕ) × (vko small arithmetic (key_of (3, 1)) (bytes_of 2) (1 ∷ replicate 15 0)
      ≡ some shared_key)
    × (vko small arithmetic (key_of (4, 3)) (bytes_of 3) (1 ∷ replicate 15 0) ≡ some shared_key)
vko-vko_tc26_example =
    vko-vko_tc26 small arithmetic (bytes_of 2) (bytes_of 3) (key_of (4, 3)) (key_of (3, 1))
      (1 ∷ replicate 15 0) 2 small-IsCurve group ukm_one made_two made_three

product_of : 5 * (4 * (le_value (bytes_of 2) * le_value (bytes_of 3))) % 7 ≡ 1
unfolding le_value
product_of = refl

ecdh-ecdh_tc26_example :
    (secret : List ℕ) × (ecdh small arithmetic (key_of (3, 1)) (bytes_of 2) ≡ some secret)
    × (ecdh small arithmetic (key_of (4, 3)) (bytes_of 3) ≡ some secret)
ecdh-ecdh_tc26_example =
    ecdh-ecdh_tc26 small arithmetic (bytes_of 2) (bytes_of 3) (key_of (4, 3)) (key_of (3, 1)) 5
      small-IsCurve group product_of made_two made_three
