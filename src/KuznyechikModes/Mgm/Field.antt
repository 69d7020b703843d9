-- ===== src/KuznyechikModes/Mgm/Field.antt =====
-- `gf128_mul` is multiplication of polynomials over the field of two elements, modulo
-- x ^ 128 + x ^ 7 + x ^ 2 + x + 1. A polynomial is the number whose digits are its coefficients.
use libpogost.Base.{
  ℕ, zero, suc, ◌+◌, ◌*◌, ◌/◌, ◌%◌, ◌^◌, ◌<◌, bit_and, bit_or, bit_xor, ◌≡◌, refl, sym, ap, ap₂,
  ◌∙◌, inl, inr, Bool, true, false, List, arith, ltb, ◌==◌, if◌then◌else◌, Bool-cases, length, take,
  drop, length-drop, take-append-drop, take-eq_self, Below, Below-drop, u64, ◌<<<◌, ◌>>>◌,
  bit_xor_comm, bit_xor-zero, bit_xor-lt, bit_or_disjoint, mask_one, bit_xor_assoc, bit_xor-halves,
  bit_or_comm,
}
use native.Mathlib.Nat.{pow-suc, div-div-eq-div-mul}
use libpogost.Kdf.{put_be64}
use libpogost.Kdf.Encoding.{read_be}
use libpogost.KuznyechikModes.Mgm.{get_be64, Product, add_if, double_x, mul_loop, gf128_mul}
use libpogost.KuznyechikModes.Mgm.Words.{
  get_be64_lem, length-put_be64, read_be-put_be64, read_be-halves,
}

-- The product with x.
double : ℕ → ℕ
double p = let twice = p * 2 % 2 ^ 128 in if ltb p (2 ^ 127) then twice else bit_xor twice 0x87

-- The product with the `n` lowest digits of `q`.
pub times : ℕ → ℕ → ℕ → ℕ
times zero p q = 0
times (suc n) p q = bit_xor (if q % 2 == 1 then p else 0) (times n (double p) (q / 2))

abbrev doubled : ℕ → ℕ → ℕ
doubled zero p = p
doubled (suc n) p = doubled n (double p)

-- The digits in two parts.
times-halves :
    (n m p h l : ℕ)
    → l < 2 ^ n
    → times (n + m) p (h * 2 ^ n + l) ≡ bit_xor (times n p l) (times m (doubled n p) h)
unfolding times
times-halves zero m p h l k =
    let e : h * 2 ^ 0 + l ≡ h = omega arith in
    let z : 0 + m ≡ m = omega arith in
    ap₂ (λ k t. times k p t) z e ∙ sym (bit_xor_comm 0 (times m p h) ∙ bit_xor-zero (times m p h))
times-halves (suc n) m p h l k =
    let w = pow-suc 2 n in
    let d : h * 2 ^ suc n ≡ 2 * (h * 2 ^ n) = omega (arith, ap (λ (t : ℕ). h * t) w) in
    let low : (h * 2 ^ suc n + l) % 2 ≡ l % 2 = omega (arith, d) in
    let rest : (h * 2 ^ suc n + l) / 2 ≡ h * 2 ^ n + l / 2 = omega (arith, d) in
    let ih = times-halves n m (double p) h (l / 2) (omega (arith, w)) in
    let s : suc n + m ≡ suc (n + m) = omega arith in
    ap (λ k. times k p (h * 2 ^ suc n + l)) s
    ∙ ap₂ (λ a b. bit_xor (if a == 1 then p else 0) (times (n + m) (double p) b)) low rest
    ∙ ap (λ t. bit_xor (if l % 2 == 1 then p else 0) t) ih
    ∙ sym (
        bit_xor_assoc (if l % 2 == 1 then p else 0) (times n (double p) (l / 2))
          (times m (doubled n (double p)) h))

-- The polynomials of a state of `gf128_mul`.
abbrev factor : Product → ℕ
factor s = s.x_hi * 2 ^ 64 + s.x_lo

abbrev result : Product → ℕ
result s = s.res_hi * 2 ^ 64 + s.res_lo

record IsWords (s : Product) : Type 0 where
  x_hi_lt : s.x_hi < 2 ^ 64
  x_lo_lt : s.x_lo < 2 ^ 64
  res_hi_lt : s.res_hi < 2 ^ 64
  res_lo_lt : s.res_lo < 2 ^ 64

add_if_lem :
    (b : Bool) (s : Product)
    → IsWords s
    → IsWords (add_if b s)
      × (factor (add_if b s) ≡ factor s)
      × (result (add_if b s) ≡ bit_xor (result s) (if b then factor s else 0))
unfolding add_if
add_if_lem true s w = (
  record {
    x_hi_lt = w.x_hi_lt;
    x_lo_lt = w.x_lo_lt;
    res_hi_lt = bit_xor-lt 64 s.res_hi s.x_hi w.res_hi_lt w.x_hi_lt;
    res_lo_lt = bit_xor-lt 64 s.res_lo s.x_lo w.res_lo_lt w.x_lo_lt;
  },
  refl,
  sym (bit_xor-halves 64 s.res_hi s.x_hi s.res_lo s.x_lo w.res_lo_lt w.x_lo_lt),
)
add_if_lem false s w = (w, refl, sym (bit_xor-zero (result s)))

-- The upper word behind the shift.
shifted_hi :
    (hi lo : ℕ) → lo < 2 ^ 64 → bit_or (u64 (hi <<< 1)) (lo >>> 63) ≡ hi % 2 ^ 63 * 2 + lo / 2 ^ 63
shifted_hi hi lo h =
    let e : u64 (hi <<< 1) ≡ hi % 2 ^ 63 * 2 ^ 1 = omega arith in
    ap (λ t. bit_or t (lo >>> 63)) e
    ∙ bit_or_comm (hi % 2 ^ 63 * 2 ^ 1) (lo >>> 63)
    ∙ bit_or_disjoint 1 (hi % 2 ^ 63) (lo >>> 63) (omega arith)

double_x_lem :
    (s : Product)
    → IsWords s
    → IsWords (double_x s)
      × (factor (double_x s) ≡ double (factor s))
      × (result (double_x s) ≡ result s)
unfolding double_x double
double_x_lem s w =
    let hi = s.x_hi % 2 ^ 63 * 2 + s.x_lo / 2 ^ 63 in
    let lo = u64 (s.x_lo <<< 1) in
    let hi_lt : hi < 2 ^ 64 = omega (arith, w) in
    let up = shifted_hi s.x_hi s.x_lo w.x_lo_lt in
    let top = mask_one (s.x_hi >>> 63) in
    let twice : factor s * 2 % 2 ^ 128 ≡ hi * 2 ^ 64 + lo = omega (arith, w) in
    let joined = bit_xor-halves 64 hi 0 lo 0x87 (omega arith) (omega arith) in
    elim (Bool-cases (ltb 0 (bit_and (s.x_hi >>> 63) 1))) [
      | inl e ↦
          let big : ltb (factor s) (2 ^ 127) ≡ false = ground (arith, e, top, w) in
          rw (up, e, big)
            (
              record {
                x_hi_lt = hi_lt;
                x_lo_lt = bit_xor-lt 64 lo 0x87 (omega arith) (omega arith);
                res_hi_lt = w.res_hi_lt;
                res_lo_lt = w.res_lo_lt;
              },
              sym (
                  ap (λ t. bit_xor t 0x87) twice
                  ∙ joined
                  ∙ ap (λ t. t * 2 ^ 64 + bit_xor lo 0x87) (bit_xor-zero hi)),
              refl,
            )
      | inr e ↦
          let small : ltb (factor s) (2 ^ 127) ≡ true = ground (arith, e, top, w) in
          rw (up, e, small)
            (
              record {
                x_hi_lt = hi_lt;
                x_lo_lt = omega arith;
                res_hi_lt = w.res_hi_lt;
                res_lo_lt = w.res_lo_lt;
              },
              sym twice,
              refl,
            )
    ]

value_lem :
    (x : List ℕ)
    → length x ≡ 16
    → Below 256 x
    → read_be 0 x ≡ get_be64 x * 2 ^ 64 + get_be64 (drop 8 x)
value_lem x h fits =
    let hi = get_be64_lem x (omega arith) fits in
    let l : length (drop 8 x) ≡ 8 = omega (arith, length-drop 8 x) in
    let lo = get_be64_lem (drop 8 x) (omega arith) (Below-drop 256 8 x fits) in
    ap (λ t. read_be 0 t) (sym (take-append-drop 8 x))
    ∙ read_be-halves (take 8 x) (drop 8 x) l
    ∙ ap₂ (λ (s : ℕ) (t : ℕ). s * 2 ^ 64 + t) (sym hi.0)
        (ap (λ t. read_be 0 t) (sym (take-eq_self 8 (drop 8 x) (omega arith))) ∙ sym lo.0)

mul_loop_lem :
    (left i y : ℕ) (s : Product)
    → IsWords s
    → IsWords (mul_loop left i y s)
      × (factor (mul_loop left i y s) ≡ doubled left (factor s))
      × (result (mul_loop left i y s) ≡ bit_xor (result s) (times left (factor s) (y / 2 ^ i)))
unfolding mul_loop times
mul_loop_lem zero i y s w = (w, refl, sym (bit_xor-zero (result s)))
mul_loop_lem (suc left) i y s w =
    let bit = ltb 0 (bit_and (y >>> i) 1) in
    let a = add_if_lem bit s w in
    let d = double_x_lem (add_if bit s) a.0 in
    let ih = mul_loop_lem left (i + 1) y (double_x (add_if bit s)) d.0 in
    let at : factor (double_x (add_if bit s)) ≡ double (factor s) = d.1 ∙ ap double a.1 in
    let digit : bit ≡ (y / 2 ^ i % 2 == 1) =
      same_test (bit_and (y >>> i) 1) _ (mask_one (y >>> i)) (omega arith) in
    let next : y / 2 ^ (i + 1) ≡ y / 2 ^ i / 2 = halved y i in
    (
      ih.0,
      ih.1 ∙ ap (λ p. doubled left p) at,
      ih.2
          ∙ ap₂ (λ r t. bit_xor r t) (d.2 ∙ a.2) (ap₂ (λ p q. times left p q) at next)
          ∙ bit_xor_assoc (result s) (if bit then factor s else 0)
              (times left (double (factor s)) (y / 2 ^ i / 2))
          ∙ ap
              (λ b. bit_xor (result s) (
                bit_xor (if b then factor s else 0)
                  (times left (double (factor s)) (y / 2 ^ i / 2))))
              digit,
    )
  where
    same_test : (b q : ℕ) → b ≡ q → q < 2 → ltb 0 b ≡ (q == 1)
    same_test b zero e h = ap (λ t. ltb 0 t) e
    same_test b (suc zero) e h = ap (λ t. ltb 0 t) e
    same_test b (suc (suc q)) e h = absurd (omega arith)

    halved : (y i : ℕ) → y / 2 ^ (i + 1) ≡ y / 2 ^ i / 2
    halved y i =
        let s : i + 1 ≡ suc i = omega arith in
        ap (λ (k : ℕ). y / 2 ^ k) s
        ∙ ap (λ (k : ℕ). y / k) (pow-suc 2 i)
        ∙ sym (div-div-eq-div-mul y (2 ^ i) 2)

-- The block of 16 bytes that `gf128_mul` gives for two such blocks is, as a number, the product of
-- the two.
pub gf128_mul-times :
    (x y : List ℕ)
    → length x ≡ 16
    → length y ≡ 16
    → Below 256 x
    → Below 256 y
    → read_be 0 (gf128_mul x y) ≡ times 128 (read_be 0 x) (read_be 0 y)
unfolding gf128_mul
gf128_mul-times x y hx hy fx fy =
    let x_hi = get_be64_lem x (omega arith) fx in
    let x_lo = get_be64_lem (drop 8 x) (omega (arith, length-drop 8 x)) (Below-drop 256 8 x fx) in
    let y_hi = get_be64_lem y (omega arith) fy in
    let y_lo = get_be64_lem (drop 8 y) (omega (arith, length-drop 8 y)) (Below-drop 256 8 y fy) in
    let start : Product = record {
      x_hi = get_be64 x;
      x_lo = get_be64 (drop 8 x);
      res_hi = 0;
      res_lo = 0;
    } in
    let w : IsWords start = record {
      x_hi_lt = x_hi.1;
      x_lo_lt = x_lo.1;
      res_hi_lt = omega arith;
      res_lo_lt = omega arith;
    } in
    let low = mul_loop_lem 64 0 (get_be64 (drop 8 y)) start w in
    let mid = mul_loop 64 0 (get_be64 (drop 8 y)) start in
    let high = mul_loop_lem 64 0 (get_be64 y) mid low.0 in
    let done = mul_loop 64 0 (get_be64 y) mid in
    let one : (v : ℕ) → v / 2 ^ 0 ≡ v = (λ v. omega arith) in
    let p = read_be 0 x in
    let is_p : factor start ≡ p = sym (value_lem x hx fx) in
    let l : times 64 (factor start) (get_be64 (drop 8 y) / 2 ^ 0)
        ≡ times 64 p (get_be64 (drop 8 y)) =
      ap₂ (λ s t. times 64 s t) is_p (one _) in
    let h : times 64 (factor mid) (get_be64 y / 2 ^ 0) ≡ times 64 (doubled 64 p) (get_be64 y) =
      ap₂ (λ s t. times 64 s t) (low.1 ∙ ap (λ t. doubled 64 t) is_p) (one _) in
    let sum : result done
        ≡ bit_xor (times 64 p (get_be64 (drop 8 y))) (times 64 (doubled 64 p) (get_be64 y)) =
      high.2 ∙ ap₂ (λ s t. bit_xor s t) (low.2 ∙ bit_xor_comm 0 _ ∙ bit_xor-zero _ ∙ l) h in
    read_be-halves (put_be64 done.res_hi) (put_be64 done.res_lo) (length-put_be64 done.res_lo)
    ∙ ap₂ (λ (s : ℕ) (t : ℕ). s * 2 ^ 64 + t) (read_be-put_be64 done.res_hi high.0.res_hi_lt)
        (read_be-put_be64 done.res_lo high.0.res_lo_lt)
    ∙ sum
    ∙ sym (times-halves 64 64 p (get_be64 y) (get_be64 (drop 8 y)) y_lo.1)
    ∙ ap (λ t. times 128 p t) (sym (value_lem y hy fy))
