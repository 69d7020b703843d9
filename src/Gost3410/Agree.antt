-- ===== src/Gost3410/Agree.antt =====
-- Both sides of a key agreement get the same key.
use libpogost.Base.{
  ℕ, zero, suc, ◌*◌, ◌%◌, ◌<◌, ◌≡◌, refl, sym, ap, ◌∙◌, false, some, List, ◌++◌, arith, ◌==◌, take,
}
use native.Mathlib.Nat.{mod-mod, mod-eq_of_lt}
use libpogost.Streebog.{streebog512}
use libpogost.Gost3410.{Point, Curve, Fits, Ecc, le_value, vli_to_le, public_key, read_point, vko}
use libpogost.Gost3410.Modulo.{mod_times}
use libpogost.Gost3410.Sign.{IsCurve, scalar_valid_intro, read_point-key_bytes, public_key_inv}

module _ (c : Curve) (E : Ecc c) (w : IsCurve c) where
  -- The bytes of a point, hashed.
  abbrev hashed : Point → List ℕ
  hashed at = streebog512 (vli_to_le c.digits at.0 ++ vli_to_le c.digits at.1)

  vko_lem :
      (key private_key ukm : List ℕ) (b : ℕ)
      → let a = E.from_le private_key in
        let u = le_value (take 16 ukm) in
        Fits c.n a
        → 0 < b
        → b < c.n
        → Fits c.n (a * u % c.n)
        → read_point c E key ≡ E.times b
        → vko c E key private_key ukm ≡ some (hashed (E.times (b * (a * u % c.n) % c.n)))
  unfolding vko
  vko_lem key private_key ukm b af b_pos b_lt sf q =
      let a = E.from_le private_key in
      let u = le_value (take 16 ukm) in
      let s = a * u % c.n in
      let u_some : (u == 0) ≡ false = nonzero a u sf.0 in
      let s_some : (s == 0) ≡ false = ground (arith, sf.0) in
      rw
        (
          q,
          (E.valid_lem b b_pos b_lt).0,
          scalar_valid_intro c a (omega (arith, af.0)) (omega (arith, af.1)),
          u_some,
          E.mod_mult_lem a u,
          s_some,
          E.mult_lem b s b_pos b_lt sf,
        )
        refl
    where
      nonzero : (a u : ℕ) → 1 < a * u % c.n → (u == 0) ≡ false
      nonzero a zero h =
          let z : a * 0 ≡ 0 = omega arith in
          let zero_mod : 0 % c.n ≡ 0 = mod-eq_of_lt (omega (arith, w.some_order)) in
          absurd (omega (arith, h, ap (λ (t : ℕ). t % c.n) z ∙ zero_mod))
      nonzero a (suc u) h = ground arith

-- Over a curve whose order fills its digits up to one bit, for two private keys from 2 to n - 3
-- whose products with the number of the keying material are, modulo the order n, from 2 to n - 3
-- too: each private key agrees with the public key of the other on the same key.
pub vko-vko :
    (c : Curve) (E : Ecc c) (private_a private_b key_a key_b ukm : List ℕ)
    → IsCurve c
    → Fits c.n (E.from_le private_a)
    → Fits c.n (E.from_le private_b)
    → Fits c.n (E.from_le private_a * le_value (take 16 ukm) % c.n)
    → Fits c.n (E.from_le private_b * le_value (take 16 ukm) % c.n)
    → public_key c E private_a ≡ some key_a
    → public_key c E private_b ≡ some key_b
    → (shared_key : List ℕ) × (vko c E key_b private_a ukm ≡ some shared_key)
      × (vko c E key_a private_b ukm ≡ some shared_key)
vko-vko c E private_a private_b key_a key_b ukm w af bf sa sb made_a made_b =
    let a = E.from_le private_a in
    let b = E.from_le private_b in
    let u = le_value (take 16 ukm) in
    let a_pos : 0 < a = omega (arith, af.0) in
    let a_lt : a < c.n = omega (arith, af.1) in
    let b_pos : 0 < b = omega (arith, bf.0) in
    let b_lt : b < c.n = omega (arith, bf.1) in
    let p =
      ap (λ t. read_point c E t) (public_key_inv c E w private_a key_a af made_a)
      ∙ read_point-key_bytes c E w a a_pos a_lt in
    let q =
      ap (λ t. read_point c E t) (public_key_inv c E w private_b key_b bf made_b)
      ∙ read_point-key_bytes c E w b b_pos b_lt in
    let same : a * (b * u % c.n) % c.n ≡ b * (a * u % c.n) % c.n =
      mod_times c.n a (b * u % c.n) (b * u) (mod-mod (b * u) c.n)
      ∙ ap (λ (t : ℕ). t % c.n) (let s : a * (b * u) ≡ b * (a * u) = grind arith in s)
      ∙ sym (mod_times c.n b (a * u % c.n) (a * u) (mod-mod (a * u) c.n)) in
    (
      hashed c E w (E.times (b * (a * u % c.n) % c.n)),
      vko_lem c E w key_b private_a ukm b af b_pos b_lt sa q,
      vko_lem c E w key_a private_b ukm a bf a_pos a_lt sb p
          ∙ ap (λ m. some (hashed c E w (E.times m))) same,
    )
