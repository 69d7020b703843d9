-- ===== src/Gost3410/Modulo.antt =====
-- Calculation modulo the order.
use libpogost.Base.{
  ℕ, zero, suc, ◌+◌, ◌-◌, ◌*◌, ◌%◌, ◌≤◌, ◌<◌, ◌≡◌, sym, ap, ap₂, ◌∙◌, arith, inl, inr, ◌==◌, ==_iff,
  Bool-cases,
}
use native.Mathlib.Nat.{add-mod, mod-mod, mod-eq_of_lt, add-mul-mod_self_right}

module _ (n : ℕ) where
  pub mod_plus : (a b c d : ℕ) → a % n ≡ c % n → b % n ≡ d % n → (a + b) % n ≡ (c + d) % n
  mod_plus a b c d p q =
      add-mod a b n ∙ ap₂ (λ (s : ℕ) (t : ℕ). (s + t) % n) p q ∙ sym (add-mod c d n)

  pub mod_times : (k a b : ℕ) → a % n ≡ b % n → k * a % n ≡ k * b % n
  mod_times zero a b p = ap (λ (t : ℕ). t % n) (let z : 0 * a ≡ 0 * b = omega arith in z)
  mod_times (suc k) a b p =
      let one : (x : ℕ) → suc k * x ≡ x + k * x = (λ x. omega arith) in
      ap (λ (t : ℕ). t % n) (one a)
      ∙ mod_plus a (k * a) b (k * b) p (mod_times k a b p)
      ∙ sym (ap (λ (t : ℕ). t % n) (one b))

  -- Verification finds the nonce `k` again: with `v` the inverse of `e`.
  pub nonce_again :
      (d r k e v : ℕ)
      → r ≤ n
      → k < n
      → v * e % n ≡ 1
      → 1 < n
      → (((d * r % n + k * e % n) % n) * v % n + ((n - r) * v % n) * d) % n ≡ k
  nonce_again d r k e v hr hk inv one =
      let s = (d * r % n + k * e % n) % n in
      let z = (n - r) * v in
      let signed : s % n ≡ (d * r + k * e) % n =
        mod-mod (d * r % n + k * e % n) n ∙ sym (add-mod (d * r) (k * e) n) in
      let second : (z % n * d) % n ≡ (d * z) % n =
        ap (λ (t : ℕ). t % n) (let c : z % n * d ≡ d * (z % n) = grind arith in c)
        ∙ mod_times d (z % n) z (mod-mod z n) in
      let first : (s * v % n) % n ≡ (v * (d * r + k * e)) % n =
        mod-mod (s * v) n
        ∙ ap (λ (t : ℕ). t % n) (let c : s * v ≡ v * s = grind arith in c)
        ∙ mod_times v s (d * r + k * e) signed in
      let split : (m : ℕ)
          → m + r ≡ n
          → v * (d * r + k * e) + d * (m * v) ≡ k * (v * e) + (d * v) * n =
        (λ m h. whole m h) in
      mod_plus (s * v % n) (z % n * d) (v * (d * r + k * e)) (d * z) first second
      ∙ ap (λ (t : ℕ). t % n) (split (n - r) (omega arith))
      ∙ add-mul-mod_self_right (k * (v * e)) (d * v) n
      ∙ mod_times k (v * e) 1 (inv ∙ sym (mod-eq_of_lt one))
      ∙ ap (λ (t : ℕ). t % n) (let c : k * 1 ≡ k = omega arith in c)
      ∙ mod-eq_of_lt hk
    where
      whole : (m : ℕ) → m + r ≡ n → v * (d * r + k * e) + d * (m * v) ≡ k * (v * e) + (d * v) * n
      whole m h =
          let c : v * (d * r + k * e) + d * (m * v) ≡ k * (v * e) + (d * v) * (m + r) =
            grind arith in
          c ∙ ap (λ (t : ℕ). k * (v * e) + d * v * t) h

  -- What an invertible `u` leaves of a scalar.
  pub scaled_pos : 1 < n → (d u f : ℕ) → f * u % n ≡ 1 → 0 < d → d < n → 0 < d * u % n
  scaled_pos some_order d u f inv pos lt = elim (Bool-cases (d * u % n == 0)) [
    | inl e ↦
        let zero_u : d * u % n ≡ 0 % n = (==_iff _ 0).0 e ∙ sym zero_mod in
        let vanished : f * (d * u) % n ≡ 0 =
          mod_times f (d * u) 0 zero_u
          ∙ ap (λ (t : ℕ). t % n) (let z : f * 0 ≡ 0 = omega arith in z)
          ∙ zero_mod in
        let same : f * (d * u) % n ≡ d =
          ap (λ (t : ℕ). t % n) (let s : f * (d * u) ≡ d * (f * u) = grind arith in s)
          ∙ mod_times d (f * u) 1 (inv ∙ sym one_mod)
          ∙ ap (λ (t : ℕ). t % n) (let z : d * 1 ≡ d = omega arith in z)
          ∙ below d lt in
        absurd (omega (arith, vanished, same))
    | inr e ↦ ground (arith, e)
  ]
    where
      below : (x : ℕ) → x < n → x % n ≡ x
      below x h = mod-eq_of_lt h

      zero_mod : 0 % n ≡ 0
      zero_mod = below 0 (omega (arith, some_order))

      one_mod : 1 % n ≡ 1
      one_mod = below 1 some_order
