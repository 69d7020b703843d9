-- ===== src/Rc2/Join.antt =====
-- Cipher block chaining over two runs of input, the second with the vector that the first leaves.
use libpogost.Base.{
  ℕ, zero, suc, ◌+◌, ◌*◌, ◌≤◌, ◌<◌, ◌≡◌, refl, sym, ap, ap₂, ◌∙◌, inl, inr, true, false, List, [],
  ◌++◌, append_assoc, arith, leb, Bool-cases, length, take, drop, length-append, length-drop,
  take-append_le, drop-append_le, eq-nil_of_length, xor_bytes,
}
use libpogost.Rc2.{encrypt_block, cbc_encrypt_loop, cbc_encrypt}

module _ (key : List ℕ) where
  cbc_encrypt_loop-long :
      (fuel : ℕ) (iv xs : List ℕ)
      → 8 ≤ length xs
      → cbc_encrypt_loop key (suc fuel) iv xs ≡ (
          let out = encrypt_block key (xor_bytes (take 8 xs) iv) in
          let later = cbc_encrypt_loop key fuel out (drop 8 xs) in (later.0, out ++ later.1))
  unfolding cbc_encrypt_loop
  cbc_encrypt_loop-long fuel iv xs h = let e : leb 8 (length xs) ≡ true = ground arith in rw e refl

  cbc_encrypt_loop-short :
      (fuel : ℕ) (iv xs : List ℕ) → length xs < 8 → cbc_encrypt_loop key fuel iv xs ≡ (iv, [])
  unfolding cbc_encrypt_loop
  cbc_encrypt_loop-short zero iv xs h = refl
  cbc_encrypt_loop-short (suc fuel) iv xs h =
      let e : leb 8 (length xs) ≡ false = ground arith in rw e refl

  -- Any fuel from the length of the input on gives the same result.
  cbc_encrypt_loop_enough :
      (n m : ℕ) (iv xs : List ℕ)
      → length xs ≤ n
      → length xs ≤ m
      → cbc_encrypt_loop key n iv xs ≡ cbc_encrypt_loop key m iv xs
  cbc_encrypt_loop_enough zero m iv xs p q =
      cbc_encrypt_loop-short zero iv xs (omega arith)
      ∙ sym (cbc_encrypt_loop-short m iv xs (omega arith))
  cbc_encrypt_loop_enough (suc n) zero iv xs p q =
      cbc_encrypt_loop-short (suc n) iv xs (omega arith)
      ∙ sym (cbc_encrypt_loop-short zero iv xs (omega arith))
  cbc_encrypt_loop_enough (suc n) (suc m) iv xs p q = elim (Bool-cases (leb 8 (length xs))) [
    | inl e ↦
        let out = encrypt_block key (xor_bytes (take 8 xs) iv) in
        let rest =
          cbc_encrypt_loop_enough n m out (drop 8 xs) (ground (arith, length-drop 8 xs))
            (ground (arith, length-drop 8 xs)) in
        cbc_encrypt_loop-long n iv xs (ground arith)
        ∙ ap (λ r. (r.0, out ++ r.1)) rest
        ∙ sym (cbc_encrypt_loop-long m iv xs (ground arith))
    | inr e ↦
        cbc_encrypt_loop-short (suc n) iv xs (ground arith)
        ∙ sym (cbc_encrypt_loop-short (suc m) iv xs (ground arith))
  ]

  -- The second run behind the first.
  abbrev joined : List ℕ × List ℕ → (List ℕ → List ℕ × List ℕ) → List ℕ × List ℕ
  joined a next = ((next a.0).0, a.1 ++ (next a.0).1)

  cbc_encrypt_loop-append :
      (k n : ℕ) (iv xs ys : List ℕ)
      → length xs ≡ 8 * k
      → length xs + length ys ≤ n
      → cbc_encrypt_loop key n iv (xs ++ ys)
        ≡ joined (cbc_encrypt_loop key n iv xs) (λ v. cbc_encrypt_loop key n v ys)
  cbc_encrypt_loop-append zero n iv xs ys h p =
      rw (eq-nil_of_length xs h, cbc_encrypt_loop-short n iv [] (omega arith)) refl
  cbc_encrypt_loop-append (suc k) zero iv xs ys h p = absurd (omega arith)
  cbc_encrypt_loop-append (suc k) (suc n) iv xs ys h p =
      let out = encrypt_block key (xor_bytes (take 8 xs) iv) in
      let first = cbc_encrypt_loop key n out (drop 8 xs) in
      let rest =
        cbc_encrypt_loop-append k n out (drop 8 xs) ys (omega (arith, length-drop 8 xs))
          (omega (arith, length-drop 8 xs)) in
      let spare = cbc_encrypt_loop_enough n (suc n) first.0 ys (omega arith) (omega arith) in
      cbc_encrypt_loop-long n iv (xs ++ ys) (omega (arith, length-append xs ys))
      ∙ ap₂
          (λ b r.
            (let o = encrypt_block key (xor_bytes b iv) in
              let later = cbc_encrypt_loop key n o r in (later.0, o ++ later.1)))
          (take-append_le 8 xs ys (omega arith)) (drop-append_le 8 xs ys (omega arith))
      ∙ ap (λ r. (r.0, out ++ r.1)) rest
      ∙ ap (λ r. (r.0, out ++ (first.1 ++ r.1))) spare
      ∙ ap (λ t. ((cbc_encrypt_loop key (suc n) first.0 ys).0, t))
          (sym (append_assoc out first.1 (cbc_encrypt_loop key (suc n) first.0 ys).1))
      ∙ ap (λ a. joined a (λ v. cbc_encrypt_loop key (suc n) v ys))
          (sym (cbc_encrypt_loop-long n iv xs (omega arith)))

  -- Two calls over whole blocks and what follows them write what one call writes.
  pub cbc_encrypt-append :
      (k : ℕ) (iv xs ys : List ℕ)
      → length xs ≡ 8 * k
      → cbc_encrypt key iv (xs ++ ys)
        ≡ (let a = cbc_encrypt key iv xs in let b = cbc_encrypt key a.0 ys in (b.0, a.1 ++ b.1))
  unfolding cbc_encrypt
  cbc_encrypt-append k iv xs ys h =
      let n = length (xs ++ ys) in
      let l = length-append xs ys in
      let first = cbc_encrypt_loop_enough n (length xs) iv xs (omega arith) (omega arith) in
      let second =
        cbc_encrypt_loop_enough n (length ys) (cbc_encrypt_loop key (length xs) iv xs).0 ys
          (omega arith) (omega arith) in
      cbc_encrypt_loop-append k n iv xs ys h (omega arith)
      ∙ ap (λ a. joined a (λ v. cbc_encrypt_loop key n v ys)) first
      ∙ ap (λ b. (b.0, (cbc_encrypt_loop key (length xs) iv xs).1 ++ b.1)) second

  pub cbc_encrypt-nil : (iv : List ℕ) → cbc_encrypt key iv [] ≡ (iv, [])
  unfolding cbc_encrypt
  cbc_encrypt-nil iv = refl
