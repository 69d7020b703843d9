-- ===== src/Kuznyechik/Rounds.antt =====
-- The tables hold the images of single bytes, so joining their rows is the linear map.
use libpogost.Base.{
  ℕ, zero, suc, ◌+◌, ◌-◌, ◌<◌, ◌≡◌, refl, sym, ap, ap₂, ◌∙◌, Bool, true, ◌&&◌, List, [], ◌∷◌, ◌++◌,
  map, append-nil, arith, ltb, ◌==◌, ==_iff, each_below, by_each_below, length, replicate,
  length-append, length-replicate, take-eq_self, length-map, Below, Below-append, Below-replicate,
  bit_xor-zero, xor_bytes, xor_bytes_assoc, xor_bytes_comm, xor_bytes-zeros, xor_bytes-append,
}
use libpogost.Kuznyechik.{Tables, pi, pi_inv, join_rows, joined}
use libpogost.Kuznyechik.Linear.{IsBlock, IsLinear, linear, linear_inv, xor-IsBlock}

-- The block with the byte `v` at `i`, and zeros.
abbrev pub unit : ℕ → ℕ → List ℕ
unit i v = replicate i 0 ++ (v ∷ replicate (15 - i) 0)

-- What the tables of src/generic/kuztable.h hold.
pub record IsTables (T : Tables) : Type 0 where
  pub rows : (i x : ℕ) → i < 16 → x < 256 → T.table i x ≡ linear (unit i (pi x))
  pub rows_inv : (i x : ℕ) → i < 16 → x < 256 → T.table_inv i x ≡ linear_inv (unit i x)
  pub rows_inv_ls :
      (i x : ℕ) → i < 16 → x < 256 → T.table_inv_ls i x ≡ linear_inv (unit i (pi_inv x))

-- The substitution and its inverse, over all bytes.
pi_test : ℕ → Bool
pi_test x = (ltb (pi x) 256 && ltb (pi_inv x) 256) && (pi_inv (pi x) == x)

pi_tests : each_below pi_test 256 ≡ true
unfolding each_below pi_test pi pi_inv
pi_tests = refl

pub pi_lem : (x : ℕ) → x < 256 → (pi x < 256) × (pi_inv x < 256) × (pi_inv (pi x) ≡ x)
unfolding pi_test
pi_lem x h =
    let t = by_each_below pi_test 256 pi_tests x h in
    let r = read (ltb (pi x) 256) (ltb (pi_inv x) 256) (pi_inv (pi x) == x) t in
    (ground (arith, r), ground (arith, r), (==_iff (pi_inv (pi x)) x).0 r.2)
  where
    read : (a b c : Bool) → (a && b && c) ≡ true → (a ≡ true) × (b ≡ true) × (c ≡ true)
    read a b c h = ground (arith, h)

pub unit-IsBlock : (i v : ℕ) → i < 16 → v < 256 → IsBlock (unit i v)
unit-IsBlock i v h k = (
  omega (
    arith,
    length-append (replicate i 0) (v ∷ replicate (15 - i) 0),
    length-replicate {A = ℕ} i 0,
    length-replicate {A = ℕ} (15 - i) 0,
  ),
  Below-append 256 (replicate i 0) _ (Below-replicate 256 i 0 (omega arith))
      (k, Below-replicate 256 (15 - i) 0 (omega arith)),
)

zeros_joined : (n : ℕ) (ys : List ℕ) → length ys ≡ n → xor_bytes (replicate n 0) ys ≡ ys
zeros_joined n ys e = xor_bytes_comm (replicate n 0) ys ∙ xor_bytes-zeros n ys (omega arith)

-- One more byte in its place.
unit_placed :
    (i v : ℕ) (ys : List ℕ)
    → i + suc (length ys) ≡ 16
    → xor_bytes (unit i v) (replicate (i + 1) 0 ++ ys) ≡ replicate i 0 ++ (v ∷ ys)
unit_placed i v ys e =
    ap (λ t. xor_bytes (unit i v) t) (zeros_apart i ys)
    ∙ xor_bytes-append (replicate i 0) (v ∷ replicate (15 - i) 0) (replicate i 0) (0 ∷ ys) refl
    ∙ ap₂ (λ s t. s ++ t) (zeros_joined i (replicate i 0) (length-replicate i _))
        (ap₂ ◌∷◌ (bit_xor-zero v) (zeros_joined (15 - i) ys (omega arith)))
  where
    zeros_apart : (n : ℕ) (ys : List ℕ) → replicate (n + 1) 0 ++ ys ≡ replicate n 0 ++ (0 ∷ ys)
    zeros_apart zero ys = refl
    zeros_apart (suc n) ys =
        let s : suc n + 1 ≡ suc (n + 1) = omega arith in
        ap (λ k. replicate k 0 ++ ys) s ∙ ap (λ t. 0 ∷ t) (zeros_apart n ys)

module _ (tab : ℕ → ℕ → List ℕ) (f : List ℕ → List ℕ) (l : IsLinear f) (s : ℕ → ℕ)
    (s-lt : (x : ℕ) → x < 256 → s x < 256)
    (row : (i x : ℕ) → i < 16 → x < 256 → tab i x ≡ f (unit i (s x))) where
  Below-map : (b : List ℕ) → Below 256 b → Below 256 (map s b)
  Below-map [] h = tt
  Below-map (x ∷ b) h = (s-lt x h.0, Below-map b h.1)

  join_rows_lem :
      (i : ℕ) (a b : List ℕ)
      → i + length b ≡ 16
      → IsBlock a
      → Below 256 b
      → join_rows tab i (f a) b ≡ f (xor_bytes a (replicate i 0 ++ map s b))
  unfolding join_rows
  join_rows_lem i a [] e h k = ap f (
      sym (xor_bytes-zeros 16 a (omega (arith, h.0)))
      ∙ ap (λ t. xor_bytes a t)
          (ap (λ (n : ℕ). replicate n 0) (let z : 16 ≡ i = omega arith in z)
            ∙ sym (append-nil (replicate i 0))))
  join_rows_lem i a (x ∷ b) e h k =
      let u = unit i (s x) in
      let ub = unit-IsBlock i (s x) (omega arith) (s-lt x k.0) in
      let rest = replicate (i + 1) 0 ++ map s b in
      ap (λ t. join_rows tab (i + 1) t b)
        (ap (λ t. xor_bytes (f a) t) (row i x (omega arith) k.0) ∙ sym (l.joins a u h ub))
      ∙ join_rows_lem (i + 1) (xor_bytes a u) b (omega arith) (xor-IsBlock a u h ub) k.1
      ∙ ap f (
          xor_bytes_assoc a u rest
          ∙ ap (λ t. xor_bytes a t) (unit_placed i (s x) (map s b) (omega (arith, length-map b s))))

  pub joined_lem : (b : List ℕ) → IsBlock b → joined tab b ≡ f (map s b)
  unfolding joined
  joined_lem [] h = absurd (omega (arith, h.0))
  joined_lem (x ∷ b) h =
      let u = unit 0 (s x) in
      let ub = unit-IsBlock 0 (s x) (omega arith) (s-lt x h.1.0) in
      let len : length b ≡ 15 = omega (arith, h.0) in
      ap₂ (λ r t. join_rows tab 1 r t) (row 0 x (omega arith) h.1.0)
        (take-eq_self 15 b (omega arith))
      ∙ join_rows_lem 1 u b (omega arith) ub h.1.1
      ∙ ap f (unit_placed 0 (s x) (map s b) (omega (arith, length-map b s)))
