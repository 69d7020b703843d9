-- ===== src/Rc2/Chain.antt =====
-- Cipher block chaining over whole blocks: decryption gives the plain bytes and the same `iv`.
use libpogost.Base.{
  ℕ, zero, suc, ◌*◌, ◌≤◌, ◌≡◌, refl, sym, ap, ◌∙◌, true, List, [], ◌++◌, arith, leb, length, take,
  drop, length-append, length-take, length-drop, take-append-drop, take-append, drop-append,
  eq-nil_of_length, Below, Below-append, Below-take, Below-drop, xor_bytes, length-xor_bytes,
  xor_bytes-cancel, xor_bytes-Below,
}
use libpogost.Rc2.{
  encrypt_block, decrypt_block, cbc_encrypt_loop, cbc_decrypt_loop, cbc_encrypt, cbc_decrypt,
}
use libpogost.Rc2.Block.{IsBlock, encrypt_block-IsBlock, decrypt_block-encrypt_block}

module _ (key : List ℕ) (fuel : ℕ) (iv xs : List ℕ) where
  abbrev cipher : List ℕ
  cipher = encrypt_block key (xor_bytes (take 8 xs) iv)

  cbc_encrypt_loop-suc :
      8 ≤ length xs
      → cbc_encrypt_loop key (suc fuel) iv xs ≡ (
        (cbc_encrypt_loop key fuel cipher (drop 8 xs)).0,
        cipher ++ (cbc_encrypt_loop key fuel cipher (drop 8 xs)).1,
      )
  unfolding cbc_encrypt_loop
  cbc_encrypt_loop-suc h = let e : leb 8 (length xs) ≡ true = ground arith in rw e

-- A round of decryption over a block `c` and the `out` behind it.
cbc_decrypt_loop-suc :
    (key : List ℕ) (fuel : ℕ) (iv c out : List ℕ)
    → 8 ≡ length c
    → cbc_decrypt_loop key (suc fuel) iv (c ++ out) ≡ (
      (cbc_decrypt_loop key fuel c out).0,
      xor_bytes (decrypt_block key c) iv ++ (cbc_decrypt_loop key fuel c out).1,
    )
unfolding cbc_decrypt_loop
cbc_decrypt_loop-suc key fuel iv c out e =
    let whole : leb 8 (length (c ++ out)) ≡ true = ground (arith, length-append c out) in
    rw (whole, take-append 8 c out e, drop-append 8 c out e)

cbc_encrypt_loop-nil :
    (key : List ℕ) (fuel : ℕ) (iv : List ℕ) → cbc_encrypt_loop key fuel iv [] ≡ (iv, [])
unfolding cbc_encrypt_loop
cbc_encrypt_loop-nil key zero iv = refl
cbc_encrypt_loop-nil key (suc fuel) iv = refl

cbc_decrypt_loop-nil :
    (key : List ℕ) (fuel : ℕ) (iv : List ℕ) → cbc_decrypt_loop key fuel iv [] ≡ (iv, [])
unfolding cbc_decrypt_loop
cbc_decrypt_loop-nil key zero iv = refl
cbc_decrypt_loop-nil key (suc fuel) iv = refl

-- A run over whole blocks and the run back over what it wrote.
record IsUndone (key : List ℕ) (fuel : ℕ) (iv xs : List ℕ) : Type 0 where
  same_length : length (cbc_encrypt_loop key fuel iv xs).1 ≡ length xs
  fits : Below 256 (cbc_encrypt_loop key fuel iv xs).1
  undone :
      cbc_decrypt_loop key fuel iv (cbc_encrypt_loop key fuel iv xs).1
      ≡ ((cbc_encrypt_loop key fuel iv xs).0, xs)

IsUndone-nil : (key : List ℕ) (fuel : ℕ) (iv : List ℕ) → IsUndone key fuel iv []
IsUndone-nil key fuel iv =
    let e = cbc_encrypt_loop-nil key fuel iv in
    record {
      same_length = ap (λ r. length (r.1)) e;
      fits = rw e tt;
      undone = rw e (cbc_decrypt_loop-nil key fuel iv);
    }

xor-IsBlock : (b iv : List ℕ) → IsBlock b → IsBlock iv → IsBlock (xor_bytes b iv)
xor-IsBlock b iv h k = (omega (arith, length-xor_bytes b iv), xor_bytes-Below 8 b iv h.1 k.1)

first-IsBlock : (xs : List ℕ) → 8 ≤ length xs → Below 256 xs → IsBlock (take 8 xs)
first-IsBlock xs l h = (omega (arith, length-take 8 xs), Below-take 256 8 xs h)

module _ (key : List ℕ) (fuel : ℕ) (iv xs : List ℕ) (whole : 8 ≤ length xs) (fit : Below 256 xs)
    (iv_block : IsBlock iv) (ih : IsUndone key fuel (cipher key fuel iv xs) (drop 8 xs)) where
  abbrev c : List ℕ
  c = cipher key fuel iv xs

  abbrev rest : List ℕ × List ℕ
  rest = cbc_encrypt_loop key fuel c (drop 8 xs)

  c-IsBlock : IsBlock c
  c-IsBlock = encrypt_block-IsBlock key (xor_bytes (take 8 xs) iv)

  plain : xor_bytes (decrypt_block key c) iv ≡ take 8 xs
  plain =
      let b = first-IsBlock xs whole fit in
      ap (λ t. xor_bytes t iv)
        (decrypt_block-encrypt_block key (xor_bytes (take 8 xs) iv)
          (xor-IsBlock (take 8 xs) iv b iv_block))
      ∙ xor_bytes-cancel (take 8 xs) iv (omega (arith, length-take 8 xs))

  back : cbc_decrypt_loop key (suc fuel) iv (c ++ rest.1) ≡ (rest.0, xs)
  back =
      cbc_decrypt_loop-suc key fuel iv c rest.1 (sym c-IsBlock.0)
      ∙ ap (λ y. (y.0, xor_bytes (decrypt_block key c) iv ++ y.1)) ih.undone
      ∙ ap (λ t. (rest.0, t)) (ap (λ t. t ++ drop 8 xs) plain ∙ take-append-drop 8 xs)

  IsUndone-suc : IsUndone key (suc fuel) iv xs
  IsUndone-suc =
      let step = cbc_encrypt_loop-suc key fuel iv xs whole in
      record {
        same_length =
            ap (λ r. length (r.1)) step
            ∙ omega (arith, length-append c rest.1, c-IsBlock, ih.same_length, length-drop 8 xs);
        fits = rw step (Below-append 256 c rest.1 c-IsBlock.1 ih.fits);
        undone = rw step back;
      }

cbc_loop-IsUndone :
    (key : List ℕ) (fuel k : ℕ) (iv xs : List ℕ)
    → length xs ≡ 8 * k
    → k ≤ fuel
    → Below 256 xs
    → IsBlock iv
    → IsUndone key fuel iv xs
cbc_loop-IsUndone key fuel zero iv xs l h fit b =
    rw (eq-nil_of_length xs l) (IsUndone-nil key fuel iv)
cbc_loop-IsUndone key zero (suc k) iv xs l h fit b = absurd (omega arith)
cbc_loop-IsUndone key (suc fuel) (suc k) iv xs l h fit b =
    IsUndone-suc key fuel iv xs (omega arith) fit b (
      cbc_loop-IsUndone key fuel k (cipher key fuel iv xs) (drop 8 xs)
        (omega (arith, length-drop 8 xs)) (omega arith) (Below-drop 256 8 xs fit)
        (encrypt_block-IsBlock key (xor_bytes (take 8 xs) iv)))

-- Over a whole number of blocks of bytes, and with an `iv` of eight bytes: encryption writes as
-- many bytes as it reads, and decryption with the same key and first `iv` gives the plain bytes
-- back and ends with the same `iv`.
pub cbc_decrypt-cbc_encrypt :
    (key iv xs : List ℕ) (k : ℕ)
    → length xs ≡ 8 * k
    → Below 256 xs
    → IsBlock iv
    → let (iv', ct) = cbc_encrypt key iv xs in
      (length ct ≡ length xs) × Below 256 ct × (cbc_decrypt key iv ct ≡ (iv', xs))
unfolding cbc_encrypt cbc_decrypt
cbc_decrypt-cbc_encrypt key iv xs k l fit b =
    let u = cbc_loop-IsUndone key (length xs) k iv xs l (omega arith) fit b in
    (u.same_length, u.fits, rw u.same_length u.undone)
