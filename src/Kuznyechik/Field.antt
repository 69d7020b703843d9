-- ===== src/Kuznyechik/Field.antt =====
-- The field of 256 elements modulo x ^ 8 + x ^ 7 + x ^ 6 + x + 1, and sums of products in it.
use libpogost.Base.{
  ℕ, zero, suc, ◌+◌, ◌*◌, ◌/◌, ◌%◌, ◌^◌, ◌<◌, bit_xor, ◌≡◌, refl, sym, ap, ap₂, ◌∙◌, inl, inr, Bool,
  true, false, List, [], ◌∷◌, ◌++◌, arith, ltb, ◌==◌, if◌then◌else◌, Bool-cases, length, Below,
  bit_xor_comm, bit_xor-zero, bit_xor-lt, bit_xor_assoc, bit_xor_interchange, bit_xor-halves,
  xor_bytes,
}

-- The product with x.
double : ℕ → ℕ
double p = let twice = p * 2 % 256 in if ltb p 128 then twice else bit_xor twice 0xc3

-- The product with the `n` lowest digits of `q`.
times : ℕ → ℕ → ℕ → ℕ
times zero p q = 0
times (suc n) p q = bit_xor (if q % 2 == 1 then p else 0) (times n (double p) (q / 2))

-- The sum of the products with the coefficients.
unfoldable pub weighted : List ℕ → List ℕ → ℕ
unfolding times double
weighted [] xs = 0
weighted (c ∷ cs) [] = 0
weighted (c ∷ cs) (x ∷ xs) = bit_xor (times 8 x c) (weighted cs xs)

double-lt : (p : ℕ) → p < 256 → double p < 256
unfolding double
double-lt p h = elim (Bool-cases (ltb p 128)) [
  | inl e ↦ rw e (omega arith)
  | inr e ↦ rw e (bit_xor-lt 8 (p * 2 % 256) 0xc3 (omega arith) (omega arith))
]

-- A byte without its highest digit.
double-halves :
    (h l : ℕ)
    → h < 2
    → l < 128
    → double (h * 2 ^ 7 + l) ≡ bit_xor (if h == 1 then 0xc3 else 0) (l * 2)
unfolding double
double-halves zero l p q =
    let e : 0 * 2 ^ 7 + l ≡ l = omega arith in
    let f : l * 2 % 256 ≡ l * 2 = omega arith in
    let t : ltb l 128 ≡ true = ground arith in
    rw (e, t, f) (sym (bit_xor_comm 0 (l * 2) ∙ bit_xor-zero (l * 2)))
double-halves (suc zero) l p q =
    let f : (1 * 2 ^ 7 + l) * 2 % 256 ≡ l * 2 = omega arith in
    let t : ltb (1 * 2 ^ 7 + l) 128 ≡ false = ground arith in rw (t, f) (bit_xor_comm (l * 2) 0xc3)
double-halves (suc (suc h)) l p q = absurd (omega arith)

abbrev carry_out : ℕ → ℕ
carry_out h = if h == 1 then 0xc3 else 0

carry_out-bit_xor :
    (g h : ℕ)
    → g < 2
    → h < 2
    → (bit_xor g h < 2) × (carry_out (bit_xor g h) ≡ bit_xor (carry_out g) (carry_out h))
carry_out-bit_xor zero zero p q = (omega arith, refl)
carry_out-bit_xor zero (suc zero) p q = (omega arith, refl)
carry_out-bit_xor (suc zero) zero p q = (omega arith, refl)
carry_out-bit_xor (suc zero) (suc zero) p q = (omega arith, refl)
carry_out-bit_xor g (suc (suc h)) p q = absurd (omega arith)
carry_out-bit_xor (suc (suc g)) h p q = absurd (omega arith)

twice-bit_xor : (l m : ℕ) → bit_xor l m * 2 ≡ bit_xor (l * 2) (m * 2)
twice-bit_xor l m =
    let e : (x : ℕ) → x * 2 ^ 1 + 0 ≡ x * 2 = (λ x. omega arith) in
    omega (
      arith,
      bit_xor-halves 1 l m 0 0 (omega arith) (omega arith),
      ap₂ (λ (s : ℕ) (t : ℕ). bit_xor s t) (e l) (e m),
    )

double-bit_xor :
    (x y : ℕ) → x < 256 → y < 256 → double (bit_xor x y) ≡ bit_xor (double x) (double y)
double-bit_xor x y p q =
    let g = x / 128 in
    let h = y / 128 in
    let l = x % 128 in
    let m = y % 128 in
    let ex : x ≡ g * 2 ^ 7 + l = omega arith in
    let ey : y ≡ h * 2 ^ 7 + m = omega arith in
    let c = carry_out-bit_xor g h (omega arith) (omega arith) in
    let lm = bit_xor-lt 7 l m (omega arith) (omega arith) in
    let e : bit_xor x y ≡ bit_xor g h * 2 ^ 7 + bit_xor l m =
      ap₂ (λ (s : ℕ) (t : ℕ). bit_xor s t) ex ey
      ∙ bit_xor-halves 7 g h l m (omega arith) (omega arith) in
    let twice = twice-bit_xor l m in
    ap double e
    ∙ double-halves (bit_xor g h) (bit_xor l m) c.0 lm
    ∙ ap₂ (λ (s : ℕ) (t : ℕ). bit_xor s t) c.1 twice
    ∙ bit_xor_interchange (carry_out g) (carry_out h) (l * 2) (m * 2)
    ∙ sym (
        ap₂ (λ (s : ℕ) (t : ℕ). bit_xor s t)
          (ap double ex ∙ double-halves g l (omega arith) (omega arith))
          (ap double ey ∙ double-halves h m (omega arith) (omega arith)))

times-lt : (n p q : ℕ) → p < 256 → times n p q < 256
unfolding times
times-lt zero p q h = omega arith
times-lt (suc n) p q h =
    bit_xor-lt 8 (if q % 2 == 1 then p else 0) (times n (double p) (q / 2)) (chosen (q % 2 == 1))
      (times-lt n (double p) (q / 2) (double-lt p h))
  where
    chosen : (b : Bool) → (if b then p else 0) < 256
    chosen true = h
    chosen false = omega arith

times-bit_xor :
    (n x y q : ℕ)
    → x < 256
    → y < 256
    → times n (bit_xor x y) q ≡ bit_xor (times n x q) (times n y q)
unfolding times
times-bit_xor zero x y q h k = refl
times-bit_xor (suc n) x y q h k =
    let later =
      ap (λ t. times n t (q / 2)) (double-bit_xor x y h k)
      ∙ times-bit_xor n (double x) (double y) (q / 2) (double-lt x h) (double-lt y k) in
    ap₂ (λ (s : ℕ) (t : ℕ). bit_xor s t) (chosen (q % 2 == 1)) later
    ∙ bit_xor_interchange (if q % 2 == 1 then x else 0) (if q % 2 == 1 then y else 0)
        (times n (double x) (q / 2)) (times n (double y) (q / 2))
  where
    chosen :
        (b : Bool)
        → (if b then bit_xor x y else 0) ≡ bit_xor (if b then x else 0) (if b then y else 0)
    chosen true = refl
    chosen false = refl

-- By one the product is the factor.
times-one : (x : ℕ) → x < 256 → times 8 x 1 ≡ x
unfolding times
times-one x h = bit_xor-zero x

pub weighted-lt : (cs xs : List ℕ) → Below 256 xs → weighted cs xs < 256
unfolding weighted
weighted-lt [] xs h = omega arith
weighted-lt (c ∷ cs) [] h = omega arith
weighted-lt (c ∷ cs) (x ∷ xs) h =
    bit_xor-lt 8 (times 8 x c) (weighted cs xs) (times-lt 8 x c h.0) (weighted-lt cs xs h.1)

pub weighted-xor_bytes :
    (cs xs ys : List ℕ)
    → length xs ≡ length ys
    → Below 256 xs
    → Below 256 ys
    → weighted cs (xor_bytes xs ys) ≡ bit_xor (weighted cs xs) (weighted cs ys)
unfolding weighted
weighted-xor_bytes [] xs ys e h k = refl
weighted-xor_bytes (c ∷ cs) [] [] e h k = refl
weighted-xor_bytes (c ∷ cs) [] (y ∷ ys) e h k = absurd (omega arith)
weighted-xor_bytes (c ∷ cs) (x ∷ xs) [] e h k = absurd (omega arith)
weighted-xor_bytes (c ∷ cs) (x ∷ xs) (y ∷ ys) e h k =
    ap₂ (λ (s : ℕ) (t : ℕ). bit_xor s t) (times-bit_xor 8 x y c h.0 k.0)
      (weighted-xor_bytes cs xs ys (omega arith) h.1 k.1)
    ∙ bit_xor_interchange (times 8 x c) (times 8 y c) (weighted cs xs) (weighted cs ys)

pub weighted-last :
    (cs xs : List ℕ) (z : ℕ)
    → length cs ≡ length xs
    → z < 256
    → weighted (cs ++ (1 ∷ [])) (xs ++ (z ∷ [])) ≡ bit_xor (weighted cs xs) z
unfolding weighted
weighted-last [] [] z e h =
    bit_xor-zero (times 8 z 1) ∙ times-one z h ∙ sym (bit_xor_comm 0 z ∙ bit_xor-zero z)
weighted-last [] (x ∷ xs) z e h = absurd (omega arith)
weighted-last (c ∷ cs) [] z e h = absurd (omega arith)
weighted-last (c ∷ cs) (x ∷ xs) z e h =
    ap (λ (t : ℕ). bit_xor (times 8 x c) t) (weighted-last cs xs z (omega arith) h)
    ∙ sym (bit_xor_assoc (times 8 x c) (weighted cs xs) z)
