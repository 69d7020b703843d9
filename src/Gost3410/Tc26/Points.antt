-- ===== src/Gost3410/Tc26/Points.antt =====
-- The loop over the bits of a scalar gives the multiple of a point.
use libpogost.Base.{
  ℕ, zero, suc, ◌+◌, ◌*◌, ◌/◌, ◌%◌, ◌^◌, ◌<◌, ◌≡◌, refl, sym, ap, ◌∙◌, inl, inr, true, false, arith,
  ◌==◌, if◌then◌else◌, Bool-cases, ◌>>>◌,
}
use native.Mathlib.Nat.{div-div-eq-div-mul, pow-suc, add-mod, mod-mod, mod-eq_of_lt, div-eq_of_lt}
use libpogost.Gost3410.{Point}
use libpogost.Gost3410.Modulo.{mod_plus}
use libpogost.Gost3410.Tc26.{
  EccCurve, Vli, point_inf, point_double, point_add, point_mult_loop, point_mult,
}

-- The multiples of the base point, which form a group under the formulas of the file.
pub record Multiples (c : EccCurve) (V : Vli c) : Type 0 where
  pub times : ℕ → Point
  pub times_zero : times 0 ≡ (0, 0)
  pub times_one : times 1 ≡ c.g
  pub doubled : (x : ℕ) → x < c.n → point_double c V (times x) ≡ times ((x + x) % c.n)
  pub added :
      (x y : ℕ) → x < c.n → y < c.n → point_add c V (times x) (times y) ≡ times ((x + y) % c.n)
  pub finite : (x : ℕ) → 0 < x → x < c.n → point_inf (times x) ≡ false
  pub valid : (x : ℕ) → 0 < x → x < c.n → V.valid (times x) ≡ true
  pub fits :
      (x : ℕ) → x < c.n → ((times x).0 < (2 ^ 64) ^ c.digits) × ((times x).1 < (2 ^ 64) ^ c.digits)

module _ (c : EccCurve) (V : Vli c) (G : Multiples c V) (pos : 0 < c.n) where
  mod-lt : (x : ℕ) → x % c.n < c.n
  mod-lt x = omega (arith, pos)

  doubled_mod :
      (q b : ℕ) → (q / 2 * b % c.n + q / 2 * b % c.n) % c.n ≡ (q / 2 * b + q / 2 * b) % c.n
  doubled_mod q b = sym (add-mod (q / 2 * b) (q / 2 * b) c.n)

  -- One bit more of the scalar.
  next_odd :
      (q b : ℕ)
      → (q % 2 == 1) ≡ true
      → ((q / 2 * b % c.n + q / 2 * b % c.n) % c.n + b) % c.n ≡ q * b % c.n
  next_odd q b e =
      let m = q / 2 * b in
      let odd : q / 2 + q / 2 + 1 ≡ q = ground (arith, e) in
      let whole : m + m + b ≡ (q / 2 + q / 2 + 1) * b = grind arith in
      mod_plus c.n ((m % c.n + m % c.n) % c.n) b (m + m) b (mod-mod _ c.n ∙ doubled_mod q b) refl
      ∙ ap (λ (t : ℕ). t % c.n) (whole ∙ ap (λ (t : ℕ). t * b) odd)

  next_even :
      (q b : ℕ) → (q % 2 == 1) ≡ false → (q / 2 * b % c.n + q / 2 * b % c.n) % c.n ≡ q * b % c.n
  next_even q b e =
      let m = q / 2 * b in
      let even : q / 2 + q / 2 ≡ q = ground (arith, e) in
      let whole : m + m ≡ (q / 2 + q / 2) * b = grind arith in
      doubled_mod q b ∙ ap (λ (t : ℕ). t % c.n) (whole ∙ ap (λ (t : ℕ). t * b) even)

  point_mult_loop_lem :
      (i k b : ℕ)
      → b < c.n
      → point_mult_loop c V i (G.times (k / 2 ^ i * b % c.n)) (G.times b) k ≡ G.times (k * b % c.n)
  unfolding point_mult_loop
  point_mult_loop_lem zero k b h =
      ap (λ (t : ℕ). G.times (t * b % c.n)) (let e : k / 2 ^ 0 ≡ k = omega arith in e)
  point_mult_loop_lem (suc i) k b h =
      let q = k / 2 ^ i in
      let upper : k / 2 ^ suc i ≡ q / 2 =
        ap (λ (t : ℕ). k / t) (pow-suc 2 i) ∙ sym (div-div-eq-div-mul k (2 ^ i) 2) in
      let x = q / 2 * b % c.n in
      let d = (x + x) % c.n in
      let start = ap (λ (t : ℕ). G.times (t * b % c.n)) upper in
      let dbl = ap (λ t. point_double c V t) start ∙ G.doubled x (mod-lt (q / 2 * b)) in
      let bit = (k >>> i) % 2 == 1 in
      let step : (if bit then point_add c V (G.times d) (G.times b) else G.times d)
          ≡ G.times (q * b % c.n) =
        elim (Bool-cases bit) [
          | inl e ↦ rw e (G.added d b (mod-lt (x + x)) h ∙ ap G.times (next_odd q b e))
          | inr e ↦ rw e (ap G.times (next_even q b e))
        ] in
      ap (λ t. point_mult_loop c V i (if bit then point_add c V t (G.times b) else t) (G.times b) k)
        dbl
      ∙ ap (λ t. point_mult_loop c V i t (G.times b) k) step
      ∙ point_mult_loop_lem i k b h

  -- When the formulas are the group of the multiples of the base point: point_mult, bit by bit from
  -- the top, takes the multiple `b` and any scalar `k` to the multiple `k * b` modulo the order.
  pub point_mult_lem : (k b : ℕ) → b < c.n → point_mult c V (G.times b) k ≡ G.times (k * b % c.n)
  unfolding point_mult
  point_mult_lem k b h =
      let i = V.num_bits k in
      let none_yet : k / 2 ^ i ≡ 0 = div-eq_of_lt (V.num_bits_lem k) in
      let start : (0, 0) ≡ G.times (k / 2 ^ i * b % c.n) =
        sym G.times_zero
        ∙ ap G.times (
            sym (mod-eq_of_lt pos)
            ∙ ap (λ (t : ℕ). t % c.n)
                (let z : 0 ≡ 0 * b = omega arith in z ∙ ap (λ (t : ℕ). t * b) (sym none_yet))) in
      ap (λ t. point_mult_loop c V i t (G.times b) k) start ∙ point_mult_loop_lem i k b h

  -- The multiple of the base point.
  pub point_mult-base : (k : ℕ) → 1 < c.n → point_mult c V c.g k ≡ G.times (k % c.n)
  point_mult-base k h =
      ap (λ t. point_mult c V t k) (sym G.times_one)
      ∙ point_mult_lem k 1 h
      ∙ ap (λ (t : ℕ). G.times (t % c.n)) (let e : k * 1 ≡ k = omega arith in e)
