-- ===== src/Hmac/Rfc8018.antt =====
-- PBKDF2 against its definition in RFC 8018.
use libpogost.Base.{
  ℕ, zero, suc, ◌+◌, ◌-◌, ◌*◌, ◌^◌, ◌≤◌, ◌<◌, min, ◌≡◌, refl, sym, ap, ap₂, ◌∙◌, inl, inr, true,
  false, some, List, [], ◌++◌, append-nil, arith, ltb, ◌==◌, Bool-cases, length, take,
  take-append_le, take-eq_self, take-append_ge, u32, xor_bytes, Buffer, contents, is_missing,
}
use libpogost.Hmac.{
  hmac_streebog512, hmac_streebog512_parts, hmac_parts, pbkdf2_rounds, be32, pbkdf2_loop,
  pbkdf2_streebog512,
}
use libpogost.Hmac.Parts.{hmac_parts-append}
use libpogost.Hmac.Pbkdf2.{pbkdf2_loop-zero, pbkdf2_loop-suc, length-block_at, block_at}

module _ (pass salt : List ℕ) where
  -- `U_1` is the code of the salt and the number of the block, `U_k` that of the one before.
  chained : ℕ → ℕ → List ℕ
  chained block zero = hmac_streebog512 pass (salt ++ be32 block)
  chained block (suc k) = hmac_streebog512 pass (chained block k)

  -- The sum of the first `k + 1` of them.
  summed : ℕ → ℕ → List ℕ
  unfolding chained
  summed block zero = chained block zero
  summed block (suc k) = xor_bytes (summed block k) (chained block (suc k))

  -- The sums of `count` blocks from `block` on.
  pub derived : ℕ → ℕ → ℕ → List ℕ
  unfolding summed
  derived iter zero block = []
  derived iter (suc count) block = summed block (iter - 1) ++ derived iter count (block + 1)

  parts_lem : (block : ℕ) → hmac_streebog512_parts pass salt (be32 block) ≡ chained block 0
  unfolding chained hmac_streebog512 hmac_streebog512_parts
  parts_lem block =
      hmac_parts-append 512 pass salt (be32 block) []
      ∙ ap (λ t. hmac_parts 512 pass (salt ++ t) [] []) (append-nil (be32 block))

  pbkdf2_rounds_lem :
      (left k block : ℕ)
      → pbkdf2_rounds left pass (chained block k) (summed block k) ≡ summed block (left + k)
  unfolding pbkdf2_rounds summed chained
  pbkdf2_rounds_lem zero k block = ap (λ t. summed block t) (let e : k ≡ 0 + k = omega arith in e)
  pbkdf2_rounds_lem (suc left) k block =
      pbkdf2_rounds_lem left (suc k) block
      ∙ ap (λ t. summed block t) (let e : left + suc k ≡ suc left + k = omega arith in e)

  block_at_lem : (iter block : ℕ) → block_at pass salt iter block ≡ summed block (iter - 1)
  unfolding summed
  block_at_lem iter block =
      ap (λ u. pbkdf2_rounds (iter - 1) pass u u) (parts_lem block)
      ∙ pbkdf2_rounds_lem (iter - 1) 0 block
      ∙ ap (λ t. summed block t) (let e : iter - 1 + 0 ≡ iter - 1 = omega arith in e)

  -- A prefix of two lists.
  take_apart :
      (n : ℕ) (xs ys : List ℕ)
      → length xs ≡ 64
      → take (min n 64) xs ++ take (n - min n 64) ys ≡ take n (xs ++ ys)
  take_apart n xs ys h = elim (Bool-cases (ltb 64 n)) [
    | inl e ↦
        let more : 64 < n = ground (arith, e) in
        let m : min n 64 ≡ 64 = omega (arith, more) in
        rw m (
          ap (λ t. t ++ take (n - 64) ys) (take-eq_self 64 xs (omega (arith, h)))
          ∙ ap (λ (k : ℕ). xs ++ take (n - k) ys) (sym h)
          ∙ sym (take-append_ge n xs ys (omega (arith, more, h))))
    | inr e ↦
        let less : n ≤ 64 = ground (arith, e) in
        let m : min n 64 ≡ n = omega (arith, less) in
        let z : n - n ≡ 0 = omega arith in
        rw (m, z) (append-nil (take n xs) ∙ sym (take-append_le n xs ys (omega (arith, less, h))))
  ]

  derived-u32 :
      (iter count block : ℕ)
      → block + suc count ≤ 2 ^ 32
      → derived iter count (u32 (block + 1)) ≡ derived iter count (block + 1)
  unfolding derived
  derived-u32 iter zero block p = refl
  derived-u32 iter (suc count) block p =
      ap (λ b. derived iter (suc count) b)
        (let e : u32 (block + 1) ≡ block + 1 = omega (arith, p) in e)

  pbkdf2_loop_lem :
      (fuel left count block iter : ℕ)
      → left ≤ fuel
      → left ≤ 64 * count
      → block + count ≤ 2 ^ 32
      → pbkdf2_loop fuel left block pass salt iter ≡ take left (derived iter count block)
  unfolding derived
  pbkdf2_loop_lem fuel zero count block iter h k p = pbkdf2_loop-zero pass salt iter fuel block
  pbkdf2_loop_lem zero (suc left) count block iter h k p = absurd (omega arith)
  pbkdf2_loop_lem (suc fuel) (suc left) zero block iter h k p = absurd (omega arith)
  pbkdf2_loop_lem (suc fuel) (suc left) (suc count) block iter h k p =
      let n = min (suc left) 64 in
      let t = summed block (iter - 1) in
      let lt : length t ≡ 64 =
        ap length (sym (block_at_lem iter block)) ∙ length-block_at pass salt iter block in
      let next = u32 (block + 1) in
      let later =
        pbkdf2_loop_lem fuel (suc left - n) count next iter (omega arith) (omega (arith, k))
          (omega (arith, p))
        ∙ ap (λ d. take (suc left - n) d) (derived-u32 iter count block p) in
      pbkdf2_loop-suc pass salt iter fuel (suc left) block (omega arith)
      ∙ ap₂ (λ a b. take n a ++ b) (block_at_lem iter block) later
      ∙ take_apart (suc left) t (derived iter count (block + 1)) lt

-- For buffers that are not missing, at least one iteration and any number of blocks that is enough
-- for the bytes asked for and below 2 ^ 32: pbkdf2_streebog512 accepts, and gives these bytes of the
-- blocks that RFC 8018 defines, each the sum of the codes that are chained from the salt and the
-- number of the block.
pub pbkdf2_streebog512_lem :
    (n count : ℕ) (pass salt : Buffer) (iter : ℕ)
    → is_missing pass ≡ false
    → is_missing salt ≡ false
    → 0 < iter
    → n ≤ 64 * count
    → count < 2 ^ 32
    → pbkdf2_streebog512 true n pass salt iter
      ≡ some (take n (derived (contents pass) (contents salt) iter count 1))
unfolding pbkdf2_streebog512
pbkdf2_streebog512_lem n count pass salt iter p s pos enough few =
    let once : (iter == 0) ≡ false = ground arith in
    let fits : n ≤ 0xffffffff * 64 = omega (arith, enough, few) in
    let small : ltb (0xffffffff * 64) n ≡ false = ground (arith, fits) in
    rw (p, s, once, small)
      (ap some (
        pbkdf2_loop_lem (contents pass) (contents salt) n n count 1 iter (omega arith) enough
          (omega (arith, few))))
