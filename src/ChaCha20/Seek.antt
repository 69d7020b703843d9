-- ===== src/ChaCha20/Seek.antt =====
-- The stream cipher: a message may be cut after whole blocks.
use libpogost.Base.{
  ℕ, zero, suc, ◌+◌, ◌*◌, ◌≤◌, ◌<◌, ◌≡◌, refl, sym, ap, ◌∙◌, inl, inr, List, [], ◌∷◌, ◌++◌,
  append_assoc, arith, leb, Bool-cases, length, drop, length-append, length-drop, take-append_le,
  drop-append_le, eq-nil_of_length,
}
use libpogost.ChaCha20.{block, crypt_loop, chacha_crypt}
use libpogost.ChaCha20.Stream.{crypt_loop-long, crypt_loop_tail, crypt_loop-nil}

crypt_loop-tail_any :
    (n m : ℕ) (st src : List ℕ) (r : ℕ)
    → length src < 64
    → length src ≤ n
    → length src ≤ m
    → crypt_loop n st src r ≡ crypt_loop m st src r
crypt_loop-tail_any n m st [] r h p q = crypt_loop-nil n st r ∙ sym (crypt_loop-nil m st r)
crypt_loop-tail_any zero m st (x ∷ src) r h p q = absurd (omega arith)
crypt_loop-tail_any (suc n) zero st (x ∷ src) r h p q = absurd (omega arith)
crypt_loop-tail_any (suc n) (suc m) st (x ∷ src) r h p q =
    crypt_loop_tail n st (x ∷ src) r (omega arith) h
    ∙ sym (crypt_loop_tail m st (x ∷ src) r (omega arith) h)

-- Any fuel from the length of the input on gives the same result.
crypt_loop_enough :
    (n m : ℕ) (st src : List ℕ) (r : ℕ)
    → length src ≤ n
    → length src ≤ m
    → crypt_loop n st src r ≡ crypt_loop m st src r
crypt_loop_enough zero m st src r p q = crypt_loop-tail_any zero m st src r (omega arith) p q
crypt_loop_enough (suc n) zero st src r p q =
    crypt_loop-tail_any (suc n) zero st src r (omega arith) p q
crypt_loop_enough (suc n) (suc m) st src r p q = elim (Bool-cases (leb 64 (length src))) [
  | inl e ↦
      let rest =
        crypt_loop_enough n m (block st r).1 (drop 64 src) r (ground (arith, length-drop 64 src))
          (ground (arith, length-drop 64 src)) in
      rw
        (crypt_loop-long n st src r (ground arith), crypt_loop-long m st src r (ground arith), rest)
        refl
  | inr e ↦ crypt_loop-tail_any (suc n) (suc m) st src r (ground arith) p q
]

-- The two runs over the parts of an input, as one result.
abbrev joined : List ℕ × List ℕ → (List ℕ → List ℕ × List ℕ) → List ℕ × List ℕ
joined a next = (a.0 ++ (next a.1).0, (next a.1).1)

crypt_loop-append :
    (k fuel : ℕ) (st xs ys : List ℕ) (r : ℕ)
    → length xs ≡ k * 64
    → length xs + length ys ≤ fuel
    → crypt_loop fuel st (xs ++ ys) r
      ≡ joined (crypt_loop fuel st xs r) (λ st'. crypt_loop fuel st' ys r)
crypt_loop-append zero fuel st xs ys r h fits =
    rw (eq-nil_of_length xs h, crypt_loop-nil fuel st r) refl
crypt_loop-append (suc k) zero st xs ys r h fits = absurd (omega arith)
crypt_loop-append (suc k) (suc fuel) st xs ys r h fits =
    let first = crypt_loop-long fuel st xs r (omega arith) in
    let whole = crypt_loop-long fuel st (xs ++ ys) r (omega (arith, length-append xs ys)) in
    let rest =
      crypt_loop-append k fuel (block st r).1 (drop 64 xs) ys r (omega (arith, length-drop 64 xs))
        (omega (arith, length-drop 64 xs)) in
    let spare =
      λ (st' : List ℕ). crypt_loop_enough fuel (suc fuel) st' ys r (omega arith) (omega arith) in
    let end = (crypt_loop fuel (block st r).1 (drop 64 xs) r).1 in
    rw
      (
        first,
        whole,
        take-append_le 64 xs ys (omega arith),
        drop-append_le 64 xs ys (omega arith),
        rest,
        spare end,
        append_assoc,
      )
      refl

-- Input that is cut after a whole number of blocks may be crypted in two calls, the second of
-- which goes on from the state that the first leaves.
pub chacha_crypt-append :
    (k : ℕ) (st xs ys : List ℕ) (nrounds : ℕ)
    → length xs ≡ k * 64
    → chacha_crypt st (xs ++ ys) nrounds ≡ (
      (chacha_crypt st xs nrounds).0 ++ (chacha_crypt (chacha_crypt st xs nrounds).1 ys nrounds).0,
      (chacha_crypt (chacha_crypt st xs nrounds).1 ys nrounds).1,
    )
unfolding chacha_crypt
chacha_crypt-append k st xs ys r h =
    let n = length (xs ++ ys) in
    let l = length-append xs ys in
    let first = crypt_loop_enough n (length xs) st xs r (omega arith) (omega arith) in
    let second =
      crypt_loop_enough n (length ys) (crypt_loop (length xs) st xs r).1 ys r (omega arith)
        (omega arith) in
    crypt_loop-append k n st xs ys r h (omega arith)
    ∙ ap (λ a. joined a (λ st'. crypt_loop n st' ys r)) first
    ∙ ap (λ b. ((crypt_loop (length xs) st xs r).0 ++ b.0, b.1)) second
