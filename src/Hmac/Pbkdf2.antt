-- ===== src/Hmac/Pbkdf2.antt =====
-- PBKDF2: the number of bytes that it derives.
use libpogost.Base.{
  ℕ, zero, suc, ◌+◌, ◌-◌, ◌*◌, ◌≤◌, ◌<◌, min, ◌≡◌, refl, ap, ◌∙◌, true, false, some, List, [], ◌++◌,
  arith, ltb, ◌==◌, if◌then◌else◌, length, take, length-append, length-take, u32, xor_bytes,
  length-xor_bytes, Buffer, contents, is_missing,
}
use libpogost.Hmac.{
  hmac_streebog512, hmac_streebog512_parts, pbkdf2_rounds, be32, pbkdf2_loop, pbkdf2_streebog512,
}
use libpogost.Hmac.Parts.{length-hmac_streebog512, length-hmac_streebog512_parts}

length-pbkdf2_rounds :
    (left : ℕ) (pass u t : List ℕ) → length t ≡ 64 → length (pbkdf2_rounds left pass u t) ≡ 64
unfolding pbkdf2_rounds
length-pbkdf2_rounds zero pass u t h = h
length-pbkdf2_rounds (suc left) pass u t h =
    let u' = hmac_streebog512 pass u in
    length-pbkdf2_rounds left pass u' (xor_bytes t u')
      (omega (arith, length-xor_bytes t u', length-hmac_streebog512 pass u))

module _ (pass salt : List ℕ) (iter : ℕ) where
  pub pbkdf2_loop-zero : (fuel block : ℕ) → pbkdf2_loop fuel 0 block pass salt iter ≡ []
  unfolding pbkdf2_loop
  pbkdf2_loop-zero zero block = refl
  pbkdf2_loop-zero (suc fuel) block = refl

  -- The block that a round derives.
  abbrev pub block_at : ℕ → List ℕ
  block_at block =
      pbkdf2_rounds (iter - 1) pass (hmac_streebog512_parts pass salt (be32 block))
        (hmac_streebog512_parts pass salt (be32 block))

  pub pbkdf2_loop-suc :
      (fuel left block : ℕ)
      → 0 < left
      → pbkdf2_loop (suc fuel) left block pass salt iter
        ≡ take (min left 64) (block_at block)
          ++ pbkdf2_loop fuel (left - min left 64) (u32 (block + 1)) pass salt iter
  unfolding pbkdf2_loop
  pbkdf2_loop-suc fuel left block p =
      let e : ltb 0 left ≡ true = ground arith in
      let n : (if ltb 64 left then 64 else left) ≡ min left 64 = round_length left in rw (e, n) refl
    where
      round_length : (l : ℕ) → (if ltb 64 l then 64 else l) ≡ min l 64
      round_length l = ground arith

  pub length-block_at : (block : ℕ) → length (block_at block) ≡ 64
  length-block_at block =
      length-pbkdf2_rounds (iter - 1) pass _ _
        (length-hmac_streebog512_parts pass salt (be32 block))

  length-pbkdf2_loop :
      (fuel left block : ℕ)
      → left ≤ fuel
      → length (pbkdf2_loop fuel left block pass salt iter) ≡ left
  length-pbkdf2_loop fuel zero block h = ap length (pbkdf2_loop-zero fuel block)
  length-pbkdf2_loop zero (suc left) block h = absurd (omega arith)
  length-pbkdf2_loop (suc fuel) (suc left) block h =
      let n = min (suc left) 64 in
      let lt = length-block_at block in
      ap length (pbkdf2_loop-suc fuel (suc left) block (omega arith))
      ∙ omega (
        arith,
        length-append (take n (block_at block))
            (pbkdf2_loop fuel (suc left - n) (u32 (block + 1)) pass salt iter),
        length-take n (block_at block),
        lt,
        length-pbkdf2_loop fuel (suc left - n) (u32 (block + 1)) (omega arith),
      )

-- With buffers that are not missing, at least one iteration and at most 2 ^ 32 - 1 blocks of 64
-- bytes, pbkdf2_streebog512 gives exactly the bytes asked for.
pub pbkdf2_streebog512-total :
    (n : ℕ) (pass salt : Buffer) (iter : ℕ)
    → is_missing pass ≡ false
    → is_missing salt ≡ false
    → 0 < iter
    → n ≤ 0xffffffff * 64
    → (okm : List ℕ) × (pbkdf2_streebog512 true n pass salt iter ≡ some okm) × (length okm ≡ n)
unfolding pbkdf2_streebog512
pbkdf2_streebog512-total n pass salt iter p s pos fits =
    let once : (iter == 0) ≡ false = ground arith in
    let small : ltb (0xffffffff * 64) n ≡ false = ground arith in
    rw (p, s, once, small)
      (
        pbkdf2_loop n n 1 (contents pass) (contents salt) iter,
        refl,
        length-pbkdf2_loop (contents pass) (contents salt) iter n n 1 (omega arith),
      )
