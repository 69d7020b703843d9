-- ===== src/Gost341194/Sum.antt =====
-- `add_blocks` is addition of 256-bit numbers, lowest byte first.
use libpogost.Base.{
  ℕ, suc, ◌+◌, ◌*◌, ◌%◌, ◌^◌, ◌<◌, ◌≡◌, refl, sym, ap, ◌∙◌, List, [], ◌∷◌, arith, length, Below,
  ◌>>>◌,
}
use native.Mathlib.Nat.{pow-suc}
use libpogost.Gost341194.{add_loop, add_blocks}

-- The number that bytes stand for, lowest byte first.
abbrev pub value : List ℕ → ℕ
value [] = 0
value (x ∷ xs) = x + 256 * value xs

add_loop_lem :
    (carry : ℕ) (xs ys : List ℕ)
    → length xs ≡ length ys
    → (out : ℕ) × (carry + value xs + value ys
        ≡ value (add_loop carry xs ys) + out * 256 ^ length xs)
      × Below 256 (add_loop carry xs ys)
      × (length (add_loop carry xs ys) ≡ length xs)
unfolding add_loop
add_loop_lem carry [] [] h = (carry, omega arith, tt, refl)
add_loop_lem carry [] (y ∷ ys) h = absurd (omega arith)
add_loop_lem carry (x ∷ xs) [] h = absurd (omega arith)
add_loop_lem carry (x ∷ xs) (y ∷ ys) h =
    let ih = add_loop_lem ((x + y + carry) >>> 8) xs ys (omega arith) in
    let p : ih.0 * 256 ^ suc (length xs) ≡ 256 * (ih.0 * 256 ^ length xs) =
      omega (arith, ap (λ (t : ℕ). ih.0 * t) (pow-suc 256 (length xs))) in
    (ih.0, omega (arith, ih.1, p), (omega arith, ih.2), ap suc ih.3)

value-lt : (xs : List ℕ) → Below 256 xs → value xs < 256 ^ length xs
value-lt [] h = omega arith
value-lt (x ∷ xs) h = omega (arith, pow-suc 256 (length xs), value-lt xs h.1)

-- For two blocks of 32 bytes, add_blocks gives the 32 bytes of their sum modulo 2 ^ 256.
value-add_blocks :
    (xs ys : List ℕ)
    → length xs ≡ 32
    → length ys ≡ 32
    → (value (add_blocks xs ys) ≡ (value xs + value ys) % 2 ^ 256)
      × Below 256 (add_blocks xs ys)
      × (length (add_blocks xs ys) ≡ 32)
unfolding add_blocks
value-add_blocks xs ys h k =
    let r = add_loop_lem 0 xs ys (h ∙ sym k) in
    let small = value-lt (add_loop 0 xs ys) r.2 in
    let width : 256 ^ length xs ≡ 2 ^ 256 = ap (λ (n : ℕ). 256 ^ n) h in
    let width' : 256 ^ length (add_loop 0 xs ys) ≡ 2 ^ 256 = ap (λ (n : ℕ). 256 ^ n) (r.3 ∙ h) in
    let w : r.0 * 256 ^ length xs ≡ r.0 * 2 ^ 256 = ap (λ (t : ℕ). r.0 * t) width in
    (omega (arith, r.1, w, small, width'), r.2, r.3 ∙ h)
