-- ===== src/Streebog/Add.antt =====
-- The words of `add512` are the sum of the two numbers, cut to their width.
use libpogost.Base.{
  ℕ, zero, suc, ◌+◌, ◌*◌, ◌%◌, ◌^◌, ◌≤◌, ◌<◌, ◌≡◌, refl, sym, ◌∙◌, List, [], ◌∷◌, arith, ltb, ◌==◌,
  if◌then◌else◌, length, Below, u64,
}
use mathlib.Core.Path.{subst}
use libpogost.Streebog.{add_loop, add512}

-- A number from its 64-bit words, lowest first, and the bound for `n` words.
abbrev pub value : List ℕ → ℕ
value [] = 0
value (w ∷ ws) = w + 2 ^ 64 * value ws

abbrev radix : ℕ → ℕ
radix zero = 1
radix (suc n) = 2 ^ 64 * radix n

pub value-lt : (xs : List ℕ) → Below (2 ^ 64) xs → value xs < radix (length xs)
value-lt [] h = omega arith
value-lt (x ∷ xs) h = omega (arith, value-lt xs h.1)

-- What the loop drops is a carry of 0 or 1.
record Sum (carry : ℕ) (xs ys : List ℕ) : Type 0 where
  dropped : ℕ
  small : dropped ≤ 1
  total : value (add_loop carry xs ys) + dropped * radix (length xs) ≡ value xs + value ys + carry
  fits : Below (2 ^ 64) (add_loop carry xs ys)
  same_length : length (add_loop carry xs ys) ≡ length xs

-- The carry out of one word, as the code finds it.
abbrev next : ℕ → ℕ → ℕ → ℕ
next carry x y =
    let sum = u64 (x + y + carry) in if sum == x then carry else (if ltb sum x then 1 else 0)

next_lem :
    (carry x y : ℕ)
    → carry ≤ 1
    → x < 2 ^ 64
    → y < 2 ^ 64
    → (next carry x y ≤ 1) × (u64 (x + y + carry) + 2 ^ 64 * next carry x y ≡ x + y + carry)
next_lem carry x y c p q = ground arith

add_loop-Sum :
    (carry : ℕ) (xs ys : List ℕ)
    → carry ≤ 1
    → length xs ≡ length ys
    → Below (2 ^ 64) xs
    → Below (2 ^ 64) ys
    → Sum carry xs ys
unfolding add_loop
add_loop-Sum carry [] [] c e p q = record {
  dropped = carry;
  small = c;
  total = omega arith;
  fits = tt;
  same_length = refl;
}
add_loop-Sum carry [] (y ∷ ys) c e p q = absurd (omega arith)
add_loop-Sum carry (x ∷ xs) [] c e p q = absurd (omega arith)
add_loop-Sum carry (x ∷ xs) (y ∷ ys) c e p q =
    let one = next_lem carry x y c p.0 q.0 in
    let rest = add_loop-Sum (next carry x y) xs ys one.0 (omega arith) p.1 q.1 in
    record {
      dropped = rest.dropped;
      small = rest.small;
      total = omega (arith, one, rest.total);
      fits = (omega arith, rest.fits);
      same_length = omega (arith, rest.same_length);
    }

mod_of_total : (n v d t : ℕ) → n ≡ 8 → v + d * radix n ≡ t + 0 → v < radix n → v ≡ t % 2 ^ 512
mod_of_total n v d t e total h = of_eight total' h'
  where
    total' : v + d * radix 8 ≡ t + 0
    total' = subst (λ k. v + d * radix k ≡ t + 0) e total

    h' : v < radix 8
    h' = subst (λ k. v < radix k) e h

    of_eight : v + d * radix 8 ≡ t + 0 → v < radix 8 → v ≡ t % 2 ^ 512
    of_eight a b = omega arith

Sum-mod :
    (x y : List ℕ)
    → length x ≡ 8
    → Sum 0 x y
    → (length (add_loop 0 x y) ≡ 8)
      × Below (2 ^ 64) (add_loop 0 x y)
      × (value (add_loop 0 x y) ≡ (value x + value y) % 2 ^ 512)
Sum-mod x y ex s = (
  s.same_length ∙ ex,
  s.fits,
  mod_of_total (length x) (value (add_loop 0 x y)) s.dropped (value x + value y) ex s.total (
      subst (λ k. value (add_loop 0 x y) < radix k) s.same_length
        (value-lt (add_loop 0 x y) s.fits)),
)

-- For two numbers of eight 64-bit words, `add512` gives the eight words of their sum modulo
-- 2 ^ 512, although it finds each carry by a comparison.
pub value-add512 :
    (x y : List ℕ)
    → length x ≡ 8
    → length y ≡ 8
    → Below (2 ^ 64) x
    → Below (2 ^ 64) y
    → (length (add512 x y) ≡ 8)
      × Below (2 ^ 64) (add512 x y)
      × (value (add512 x y) ≡ (value x + value y) % 2 ^ 512)
unfolding add512
value-add512 x y ex ey p q = Sum-mod x y ex (add_loop-Sum 0 x y (omega arith) (ex ∙ sym ey) p q)
