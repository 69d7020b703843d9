-- ===== src/KuznyechikModes/Parts.antt =====
-- OMAC of a message in two parts.
use libpogost.Base.{
  ℕ, zero, suc, ◌+◌, ◌-◌, ◌*◌, ◌/◌, ◌≤◌, ◌<◌, ◌≡◌, refl, sym, ap, ap₂, ◌∙◌, inl, inr, List, [], ◌∷◌,
  ◌++◌, arith, ltb, if◌then◌else◌, Bool-cases, length, replicate, length-append, byte_at,
  byte_at_past, byte_at-append_left, byte_at-append_right,
}
use libpogost.KuznyechikModes.{
  BlockCipher, subkey, omac_byte, omac_bytes, omac_loop, omac_last, omac2, omac,
}

omac_byte-append : (a b : List ℕ) (pos : ℕ) → omac_byte (a ++ b) [] pos ≡ omac_byte a b pos
unfolding omac_byte
omac_byte-append a b pos = elim (Bool-cases (ltb pos (length a))) [
  | inl e ↦
      let near : pos < length a = ground arith in rw e (one_part ∙ byte_at-append_left a b pos near)
  | inr e ↦
      let far : length a ≤ pos = ground arith in rw e (one_part ∙ byte_at-append_right a b pos far)
]
  where
    one_part :
        (if ltb pos (length (a ++ b))
          then byte_at (a ++ b) pos
          else byte_at [] (pos - length (a ++ b)))
        ≡ byte_at (a ++ b) pos
    one_part = elim (Bool-cases (ltb pos (length (a ++ b)))) [
      | inl e ↦ rw e refl
      | inr e ↦ rw e (sym (byte_at_past (a ++ b) pos (ground arith)))
    ]

omac_bytes-append : (a b : List ℕ) (pos n : ℕ) → omac_bytes (a ++ b) [] pos n ≡ omac_bytes a b pos n
unfolding omac_bytes
omac_bytes-append a b pos zero = refl
omac_bytes-append a b pos (suc n) =
    ap₂ ◌∷◌ (omac_byte-append a b pos) (omac_bytes-append a b (pos + 1) n)

module _ (E : BlockCipher) (a b : List ℕ) where
  omac_loop-append :
      (left i : ℕ) (ctx : E.Ctx) (state : List ℕ)
      → omac_loop E left i ctx state (a ++ b) [] ≡ omac_loop E left i ctx state a b
  unfolding omac_loop
  omac_loop-append zero i ctx state = refl
  omac_loop-append (suc left) i ctx state =
      rw (omac_bytes-append a b (i * 16) 16) (omac_loop-append left (i + 1) ctx _)

  omac_last-append :
      (k1 k2 state : List ℕ) (blocks last_len : ℕ)
      → omac_last E k1 k2 state blocks last_len (a ++ b) []
        ≡ omac_last E k1 k2 state blocks last_len a b
  unfolding omac_last
  omac_last-append k1 k2 state blocks last_len =
      rw (omac_bytes-append a b ((blocks - 1) * 16) last_len) refl

-- The result of `kuznyechik_omac2` from the number of bytes of the message.
module _ (E : BlockCipher) (key : List ℕ) where
  abbrev blocks_of : ℕ → ℕ
  blocks_of n = if ltb 0 n then (n + 15) / 16 else 1

  abbrev subkey1 : List ℕ
  subkey1 = subkey (E.encrypt (E.setkey key) (replicate {A = ℕ} 16 0))

  abbrev end_state : ℕ → List ℕ → List ℕ → List ℕ
  end_state n x y = omac_loop E (blocks_of n - 1) 0 (E.setkey key) (replicate {A = ℕ} 16 0) x y

  abbrev last_block : ℕ → List ℕ → List ℕ → List ℕ → List ℕ
  last_block n state x y =
      omac_last E subkey1 (subkey subkey1) state (blocks_of n) (n - (blocks_of n - 1) * 16) x y

  abbrev result : ℕ → List ℕ → List ℕ → List ℕ
  result n x y = E.encrypt (E.setkey key) (last_block n (end_state n x y) x y)

  result-append : (n : ℕ) (a b : List ℕ) → result n (a ++ b) [] ≡ result n a b
  result-append n a b = ap (E.encrypt (E.setkey key)) (
      omac_last-append E a b subkey1 (subkey subkey1) (end_state n (a ++ b) []) (blocks_of n)
        (n - (blocks_of n - 1) * 16)
      ∙ ap (λ st. last_block n st a b)
          (omac_loop-append E a b (blocks_of n - 1) 0 (E.setkey key) (replicate {A = ℕ} 16 0)))

-- The two parts that kuznyechik_omac2 is given count only as one message: the result is that of
-- kuznyechik_omac on the first part followed by the second.
pub omac-append : (E : BlockCipher) (a b key : List ℕ) → omac E key (a ++ b) ≡ omac2 E key a b
unfolding omac omac2
omac-append E a b key =
    let l : length (a ++ b) + 0 ≡ length a + length b = omega (arith, length-append a b) in
    result-append E key (length (a ++ b) + 0) a b ∙ ap (λ n. result E key n a b) l
