-- ===== src/KuznyechikModes/Omac.antt =====
-- OMAC: the length of its result, and that two parts count as one message.
use libpogost.Base.{
  ℕ, zero, suc, ◌+◌, ◌-◌, ◌*◌, ◌/◌, ◌≤◌, ◌<◌, bit_and, bit_xor, ◌≡◌, refl, ap, ◌∙◌, inl, inr, List,
  [], ◌∷◌, ◌++◌, arith, ltb, ◌==◌, ==_iff, if◌then◌else◌, Bool-cases, length, replicate,
  length-append, length-replicate, length-set, byte_at, xor_bytes, length-xor_bytes,
}
use libpogost.KuznyechikModes.{
  BlockCipher, shift_left_loop, shift_left, subkey, omac_bytes, omac_loop, omac_last, omac2, omac,
}

length-shift_left_loop : (xs : List ℕ) → length (shift_left_loop xs).0 ≡ length xs
unfolding shift_left_loop
length-shift_left_loop [] = refl
length-shift_left_loop (x ∷ xs) = ap suc (length-shift_left_loop xs)

length-subkey : (b : List ℕ) → length (subkey b) ≡ length b
unfolding subkey shift_left
length-subkey b =
    let out = shift_left b in
    elim (Bool-cases (ltb 0 (bit_and (byte_at b 0) 0x80))) [
      | inl e ↦ rw e (length-set out 15 (bit_xor (byte_at out 15) 0x87) ∙ length-shift_left_loop b)
      | inr e ↦ rw e (length-shift_left_loop b)
    ]

length-omac_bytes : (a b : List ℕ) (pos n : ℕ) → length (omac_bytes a b pos n) ≡ n
unfolding omac_bytes
length-omac_bytes a b pos zero = refl
length-omac_bytes a b pos (suc n) = ap suc (length-omac_bytes a b (pos + 1) n)

module _ (E : BlockCipher) where
  length-omac_loop :
      (left i : ℕ) (ctx : E.Ctx) (state a b : List ℕ)
      → length state ≡ 16
      → length (omac_loop E left i ctx state a b) ≡ 16
  unfolding omac_loop
  length-omac_loop zero i ctx state a b h = h
  length-omac_loop (suc left) i ctx state a b h = length-omac_loop left (i + 1) ctx _ a b (
      E.length-encrypt ctx _ (
        omega (
          arith,
          length-xor_bytes state (omac_bytes a b (i * 16) 16),
          length-omac_bytes a b (i * 16) 16,
        )))

  length-omac_last :
      (k1 k2 state : List ℕ) (blocks last_len : ℕ) (a b : List ℕ)
      → length k1 ≡ 16
      → length k2 ≡ 16
      → length state ≡ 16
      → last_len ≤ 16
      → length (omac_last E k1 k2 state blocks last_len a b) ≡ 16
  unfolding omac_last
  length-omac_last k1 k2 state blocks last_len a b p q h fits =
      let tail = omac_bytes a b ((blocks - 1) * 16) last_len in
      let lt = length-omac_bytes a b ((blocks - 1) * 16) last_len in
      let zeros = replicate {A = ℕ} (15 - last_len) 0 in
      elim (Bool-cases (last_len == 16)) [
        | inl e ↦ rw e (
            omega (
              arith,
              length-xor_bytes tail k1,
              length-xor_bytes (xor_bytes tail k1) state,
              (==_iff last_len 16).0 e,
            ))
        | inr e ↦
            let short : last_len < 16 = ground arith in
            rw e (
              omega (
                arith,
                length-xor_bytes k2 state,
                length-append tail (0x80 ∷ zeros),
                length-replicate {A = ℕ} (15 - last_len) 0,
                length-xor_bytes (tail ++ (0x80 ∷ zeros)) (xor_bytes k2 state),
              ))
      ]

last_len_fits : (n : ℕ) → n - ((if ltb 0 n then (n + 15) / 16 else 1) - 1) * 16 ≤ 16
last_len_fits n = elim (Bool-cases (ltb 0 n)) [
  | inl e ↦ let pos : 0 < n = ground arith in rw e (omega arith)
  | inr e ↦ let none_left : n ≡ 0 = ground arith in rw e (omega arith)
]

-- Whatever the keys and the message, OMAC has the 16 bytes of a block.
pub length-omac : (E : BlockCipher) (key text : List ℕ) → length (omac E key text) ≡ 16
unfolding omac omac2
length-omac E key text =
    let ctx = E.setkey key in
    let zeros : length (replicate {A = ℕ} 16 0) ≡ 16 = refl in
    let k1 =
      length-subkey (E.encrypt ctx (replicate {A = ℕ} 16 0)) ∙ E.length-encrypt ctx _ zeros in
    E.length-encrypt ctx _ (
      length-omac_last E _ _ _ _ _ text [] k1 (length-subkey _ ∙ k1)
        (length-omac_loop E
          ((if ltb 0 (length text + 0) then (length text + 0 + 15) / 16 else 1) - 1) 0 ctx
          (replicate {A = ℕ} 16 0) text [] zeros)
        (last_len_fits (length text + 0)))
