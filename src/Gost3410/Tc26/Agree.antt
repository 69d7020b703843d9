-- ===== src/Gost3410/Tc26/Agree.antt =====
-- Both sides of a key agreement over the curve of TC26 get the same key.
use libpogost.Base.{
  ℕ, zero, suc, ◌*◌, ◌%◌, ◌<◌, ◌≡◌, refl, sym, ap, ◌∙◌, false, some, List, ◌++◌, arith, ◌==◌, take,
}
use native.Mathlib.Nat.{mod-mod, mod-eq_of_lt}
use libpogost.Streebog.{streebog256}
use libpogost.Gost3410.{Point, le_value, vli_to_le}
use libpogost.Gost3410.Modulo.{mod_times, scaled_pos}
use libpogost.Gost3410.Tc26.{
  EccCurve, Vli, public_key, read_point, vko, ecdh_cofactor_xy, ecdh_cofactor, ecdh,
}
use libpogost.Gost3410.Tc26.Points.{Multiples, point_mult_lem}
use libpogost.Gost3410.Tc26.Sign.{IsCurve, scalar_valid_intro, read_point-public_key}

module _ (c : EccCurve) (V : Vli c) (G : Multiples c V) (w : IsCurve c) where
  -- The scalar of `vko`, and the bytes of the point that both sides reach.
  scaled : (d u : ℕ) → V.mod_mult_slow (V.mod_mult_slow d u c.n) 4 c.n ≡ d * (u * 4) % c.n
  scaled d u =
      let pos : 0 < c.n = omega (arith, w.some_order) in
      let t = d * u % c.n in
      ap (λ s. V.mod_mult_slow s 4 c.n) (V.mod_mult_slow_lem d u c.n pos)
      ∙ V.mod_mult_slow_lem t 4 c.n pos
      ∙ ap (λ (s : ℕ). s % c.n) (let s : t * 4 ≡ 4 * t = omega arith in s)
      ∙ mod_times c.n 4 t (d * u) (mod-mod (d * u) c.n)
      ∙ ap (λ (s : ℕ). s % c.n) (let s : 4 * (d * u) ≡ d * (u * 4) = grind arith in s)

  -- The scalars of the two sides.
  same_scalar : (a b u : ℕ) → a * u % c.n * b % c.n ≡ b * u % c.n * a % c.n
  same_scalar a b u =
      side (a * u) b
      ∙ ap (λ (t : ℕ). t % c.n) (let s : b * (a * u) ≡ a * (b * u) = grind arith in s)
      ∙ sym (side (b * u) a)
    where
      side : (x y : ℕ) → x % c.n * y % c.n ≡ y * x % c.n
      side x y =
          ap (λ (t : ℕ). t % c.n) (let s : x % c.n * y ≡ y * (x % c.n) = grind arith in s)
          ∙ mod_times c.n y (x % c.n) x (mod-mod x c.n)

  -- The bytes of the point with both scalars.
  abbrev point_of : ℕ → ℕ → ℕ → Point
  point_of a b u = G.times (a * u % c.n * b % c.n)

  abbrev hashed : Point → List ℕ
  hashed at = streebog256 (vli_to_le c.digits at.0 ++ vli_to_le c.digits at.1)

  vko_lem :
      (key private_key ukm : List ℕ) (b f : ℕ)
      → let a = V.from_le private_key in
        let u = le_value (take 16 ukm) in
        f * (u * 4) % c.n ≡ 1
        → 0 < a
        → a < c.n
        → 0 < b
        → b < c.n
        → read_point c V key ≡ G.times b
        → vko c V key private_key ukm ≡ some (hashed (point_of a b (u * 4)))
  unfolding vko
  vko_lem key private_key ukm b f inv a_pos a_lt b_pos b_lt q =
      let a = V.from_le private_key in
      let u = le_value (take 16 ukm) in
      let pos : 0 < c.n = omega (arith, w.some_order) in
      let s_pos = scaled_pos c.n w.some_order a (u * 4) f inv a_pos a_lt in
      let u_some : (u == 0) ≡ false = nonzero u f inv in
      let s_some : (a * (u * 4) % c.n == 0) ≡ false = ground (arith, s_pos) in
      rw
        (
          q,
          G.valid b b_pos b_lt,
          scalar_valid_intro c a a_pos a_lt,
          u_some,
          scaled a u,
          s_some,
          point_mult_lem c V G pos (a * (u * 4) % c.n) b b_lt,
        )
        refl
    where
      nonzero : (u f : ℕ) → f * (u * 4) % c.n ≡ 1 → (u == 0) ≡ false
      nonzero zero f inv =
          let z : f * (0 * 4) ≡ 0 = omega arith in
          let zero_mod : 0 % c.n ≡ 0 = mod-eq_of_lt (omega (arith, w.some_order)) in
          absurd (omega (arith, sym inv ∙ ap (λ (t : ℕ). t % c.n) z ∙ zero_mod))
      nonzero (suc u) f inv = ground arith

  -- The same for the agreement without a hash.
  ecdh_lem :
      (key private_key : List ℕ) (b f : ℕ)
      → let a = V.from_le private_key in
        f * (4 * (a * b)) % c.n ≡ 1
        → 0 < a
        → a < c.n
        → 0 < b
        → b < c.n
        → read_point c V key ≡ G.times b
        → ecdh c V key private_key ≡ some (vli_to_le c.digits (point_of a b 4).0)
  unfolding ecdh ecdh_cofactor ecdh_cofactor_xy
  ecdh_lem key private_key b f inv a_pos a_lt b_pos b_lt q =
      let a = V.from_le private_key in
      let one = w.some_order in
      let pos : 0 < c.n = omega (arith, one) in
      let s = a * 4 % c.n in
      let four : f * (a * b) * 4 % c.n ≡ 1 =
        ap (λ (t : ℕ). t % c.n) (let m : f * (a * b) * 4 ≡ f * (4 * (a * b)) = grind arith in m)
        ∙ inv in
      let s_pos = scaled_pos c.n one a 4 (f * (a * b)) four a_pos a_lt in
      let s_some : (s == 0) ≡ false = ground (arith, s_pos) in
      let product : 1 * (4 * (a * b)) % c.n ≡ s * b % c.n =
        ap (λ (t : ℕ). t % c.n) (let m : 1 * (4 * (a * b)) ≡ b * (a * 4) = grind arith in m)
        ∙ sym (mod_times c.n b s (a * 4) (mod-mod (a * 4) c.n))
        ∙ ap (λ (t : ℕ). t % c.n) (let m : b * s ≡ s * b = grind arith in m) in
      let point_pos : 0 < s * b % c.n =
        omega (arith, product, scaled_pos c.n one 1 (4 * (a * b)) f inv (omega arith) one) in
      let here = G.finite (s * b % c.n) point_pos (omega (arith, pos)) in
      rw
        (
          q,
          G.valid b b_pos b_lt,
          scalar_valid_intro c a a_pos a_lt,
          V.mod_mult_slow_lem a 4 c.n pos,
          s_some,
          point_mult_lem c V G pos s b b_lt,
          here,
        )
        refl

-- Over a curve whose order fits its digits and whose formulas are the group of the multiples of the
-- base point, and for keying material whose number times 4 has an inverse `f` modulo the order:
-- each of two private keys agrees with the public key of the other on the same key.
pub vko-vko_tc26 :
    (c : EccCurve) (V : Vli c) (private_a private_b key_a key_b ukm : List ℕ) (f : ℕ)
    → IsCurve c
    → Multiples c V
    → f * (le_value (take 16 ukm) * 4) % c.n ≡ 1
    → public_key c V private_a ≡ some key_a
    → public_key c V private_b ≡ some key_b
    → (shared_key : List ℕ) × (vko c V key_b private_a ukm ≡ some shared_key)
      × (vko c V key_a private_b ukm ≡ some shared_key)
vko-vko_tc26 c V private_a private_b key_a key_b ukm f w G inv made_a made_b =
    let a = V.from_le private_a in
    let b = V.from_le private_b in
    let u = le_value (take 16 ukm) in
    let p = read_point-public_key c V G w private_a key_a made_a in
    let q = read_point-public_key c V G w private_b key_b made_b in
    (
      hashed c V G w (point_of c V G w a b (u * 4)),
      vko_lem c V G w key_b private_a ukm b f inv p.0 p.1 q.0 q.1 q.2,
      vko_lem c V G w key_a private_b ukm a f inv q.0 q.1 p.0 p.1 p.2
          ∙ ap (λ m. some (hashed c V G w (G.times m))) (same_scalar c V G w b a (u * 4)),
    )

-- Over a curve whose order fits its digits and whose formulas are the group of the multiples of the
-- base point, and for two private keys whose product times 4 has an inverse `f` modulo the order:
-- each of them with the public key of the other gives the same shared secret.
pub ecdh-ecdh_tc26 :
    (c : EccCurve) (V : Vli c) (private_a private_b key_a key_b : List ℕ) (f : ℕ)
    → IsCurve c
    → Multiples c V
    → f * (4 * (V.from_le private_a * V.from_le private_b)) % c.n ≡ 1
    → public_key c V private_a ≡ some key_a
    → public_key c V private_b ≡ some key_b
    → (secret : List ℕ) × (ecdh c V key_b private_a ≡ some secret)
      × (ecdh c V key_a private_b ≡ some secret)
ecdh-ecdh_tc26 c V private_a private_b key_a key_b f w G inv made_a made_b =
    let a = V.from_le private_a in
    let b = V.from_le private_b in
    let p = read_point-public_key c V G w private_a key_a made_a in
    let q = read_point-public_key c V G w private_b key_b made_b in
    let turned : f * (4 * (b * a)) % c.n ≡ 1 =
      ap (λ (t : ℕ). f * (4 * t) % c.n) (let m : b * a ≡ a * b = grind arith in m) ∙ inv in
    (
      vli_to_le c.digits (point_of c V G w a b 4).0,
      ecdh_lem c V G w key_b private_a b f inv p.0 p.1 q.0 q.1 q.2,
      ecdh_lem c V G w key_a private_b a f turned q.0 q.1 p.0 p.1 p.2
          ∙ ap (λ m. some (vli_to_le c.digits (G.times m).0)) (same_scalar c V G w b a 4),
    )
