-- ===== src/Gost3410/Tc26/Scalar.antt =====
-- Reduction of a scalar modulo the order.
use libpogost.Base.{
  ℕ, zero, suc, ◌+◌, ◌-◌, ◌%◌, ◌≤◌, ◌<◌, ◌≡◌, sym, ap, ◌∙◌, inl, inr, arith, ltb, Bool-cases,
}
use native.Mathlib.Nat.{mod-eq_of_lt, add-mod_right}
use libpogost.Gost3410.Tc26.{EccCurve, scalar_reduce_loop, scalar_reduce}

scalar_reduce_loop_lem :
    (left : ℕ) (c : EccCurve) (v : ℕ) → 0 < c.n → v ≤ left → scalar_reduce_loop left c v ≡ v % c.n
unfolding scalar_reduce_loop
scalar_reduce_loop_lem zero c v pos h =
    let e : v ≡ 0 = omega arith in e ∙ sym (mod-eq_of_lt pos) ∙ ap (λ (t : ℕ). t % c.n) (sym e)
scalar_reduce_loop_lem (suc left) c v pos h = elim (Bool-cases (ltb v c.n)) [
  | inl e ↦ rw e (sym (mod-eq_of_lt (ground (arith, e))))
  | inr e ↦
      let ge : c.n ≤ v = ground (arith, e) in
      let back : v - c.n + c.n ≡ v = omega (arith, ge) in
      rw e (
        scalar_reduce_loop_lem left c (v - c.n) pos (omega (arith, ge))
        ∙ sym (add-mod_right (v - c.n) c.n)
        ∙ ap (λ (t : ℕ). t % c.n) back)
]

-- When the order is not 0, the loop that takes off the order ends with the remainder by it.
pub scalar_reduce_lem : (c : EccCurve) (v : ℕ) → 0 < c.n → scalar_reduce c v ≡ v % c.n
unfolding scalar_reduce
scalar_reduce_lem c v pos = scalar_reduce_loop_lem v c v pos (omega arith)
