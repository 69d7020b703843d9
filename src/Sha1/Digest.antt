-- ===== src/Sha1/Digest.antt =====
-- The digest against its definition: the message, a bit, zeros and the number of its bits, cut
-- into blocks.
use libpogost.Base.{
  ℕ, zero, suc, ◌+◌, ◌-◌, ◌*◌, ◌%◌, ◌≤◌, ◌<◌, ◌≡◌, refl, sym, ap, ◌∙◌, inl, inr, List, [], ◌∷◌,
  ◌++◌, append_assoc, append-nil, arith, ltb, Bool-cases, length, take, replicate, length-append,
  length-replicate, length-take, take-eq_self, blit, length-blit, take-blit, u64, IsBuffered,
  waiting, stands, blocks_into, TakesIn, blocks_into-append, blocks_into-block,
  length-blocks_into_mod, blocks_into-short,
}
use libpogost.Sha1.{
  State, sha1_block, initial, init, update, bits_bytes, words_bytes, last_block, final,
}
use libpogost.Sha1.Update.{update-TakesIn, init-IsBuffered}

abbrev hashed : List ℕ → List ℕ → List ℕ × List ℕ
hashed = blocks_into 64 sha1_block

-- What ends a message whose length leaves `used` bytes over whole blocks.
abbrev ending : ℕ → ℕ → List ℕ
ending used bits = (0x80 ∷ []) ++ (replicate ((119 - used) % 64) 0 ++ bits_bytes bits)

-- SHA-1 as FIPS 180 defines it: no buffer.
abbrev pub reference : List ℕ → List ℕ
reference m = words_bytes (hashed initial (m ++ ending (length m % 64) (u64 (length m * 8)))).0

replicate_add : (a b : ℕ) (x : ℕ) → replicate (a + b) x ≡ replicate a x ++ replicate b x
replicate_add zero b x = let e : 0 + b ≡ b = omega arith in ap (λ k. replicate k x) e
replicate_add (suc a) b x =
    let e : suc a + b ≡ suc (a + b) = omega arith in
    ap (λ k. replicate k x) e ∙ ap (λ t. x ∷ t) (replicate_add a b x)

length-bits_bytes : (bits : ℕ) → length (bits_bytes bits) ≡ 8
unfolding bits_bytes
length-bits_bytes bits = refl

-- A copy up to the end of a buffer.
blit_to_end :
    (buf : List ℕ) (off : ℕ) (src : List ℕ)
    → length buf ≡ 64
    → off + length src ≡ 64
    → blit buf off src ≡ take off buf ++ src
blit_to_end buf off src h e =
    sym (take-eq_self 64 (blit buf off src) (omega (arith, length-blit buf off src (omega arith))))
    ∙ take-blit buf off src 64 (omega arith) (omega arith)

last_block_lem :
    (block : List ℕ) (used bits : ℕ)
    → length block ≡ 64
    → used ≤ 56
    → last_block block used bits ≡ take used block ++ (replicate (56 - used) 0 ++ bits_bytes bits)
unfolding last_block
last_block_lem block used bits h fits =
    let zeros : List ℕ = replicate (56 - used) 0 in
    let l : length zeros ≡ 56 - used = length-replicate (56 - used) 0 in
    blit_to_end (blit block used zeros) 56 (bits_bytes bits)
      (length-blit block used zeros (omega arith) ∙ h) (omega (arith, length-bits_bytes bits))
    ∙ ap (λ t. t ++ bits_bytes bits) (take-blit block used zeros 56 (omega arith) (omega arith))
    ∙ append_assoc (take used block) zeros (bits_bytes bits)

module _ (st : State) (v : IsBuffered 64 st.buffered) where
  abbrev fill : ℕ
  fill = st.buffered.fill

  abbrev w : List ℕ
  w = waiting st.buffered

  abbrev marked : List ℕ
  marked = blit st.buffered.buffer fill (0x80 ∷ [])

  abbrev bytes_end : List ℕ
  bytes_end = bits_bytes st.bits

  length-w : length w ≡ fill
  length-w = omega (arith, v, length-take fill st.buffered.buffer)

  length-marked : length marked ≡ 64
  length-marked = length-blit st.buffered.buffer fill (0x80 ∷ []) (omega (arith, v)) ∙ v.whole

  take-marked : take (fill + 1) marked ≡ w ++ (0x80 ∷ [])
  take-marked = take-blit st.buffered.buffer fill (0x80 ∷ []) (fill + 1) refl (omega (arith, v))

  -- There is room for the number of bits.
  one_block :
      fill < 56
      → hashed st.buffered.core (w ++ ending fill st.bits)
        ≡ (sha1_block st.buffered.core (last_block marked (fill + 1) st.bits), [])
  one_block room =
      let zeros : List ℕ = replicate (56 - (fill + 1)) 0 in
      let k : (119 - fill) % 64 ≡ 56 - (fill + 1) = omega arith in
      let whole : last_block marked (fill + 1) st.bits ≡ w ++ ending fill st.bits =
        last_block_lem marked (fill + 1) st.bits length-marked (omega arith)
        ∙ ap (λ t. t ++ (zeros ++ bytes_end)) take-marked
        ∙ append_assoc w (0x80 ∷ []) (zeros ++ bytes_end)
        ∙ ap (λ n. w ++ ((0x80 ∷ []) ++ (replicate n 0 ++ bytes_end))) (sym k) in
      let l : 64 ≡ length (w ++ ending fill st.bits) = omega (
        arith,
        length-append w (ending fill st.bits),
        length-append (replicate ((119 - fill) % 64) 0) bytes_end,
        length-replicate {A = ℕ} ((119 - fill) % 64) 0,
        length-bits_bytes st.bits,
        length-w,
      ) in
      ap (hashed st.buffered.core) (sym (append-nil (w ++ ending fill st.bits)))
      ∙ blocks_into-block 64 sha1_block (omega arith) st.buffered.core (w ++ ending fill st.bits) []
          l
      ∙ blocks_into-short 64 sha1_block (omega arith) _ [] (omega arith)
      ∙ ap (λ b. (sha1_block st.buffered.core b, [])) (sym whole)

  abbrev cleared : List ℕ
  cleared = blit marked (fill + 1) (replicate (64 - (fill + 1)) 0)

  cleared-eq : cleared ≡ w ++ ((0x80 ∷ []) ++ replicate (64 - (fill + 1)) 0)
  cleared-eq =
      let zeros : List ℕ = replicate (64 - (fill + 1)) 0 in
      let l : length zeros ≡ 64 - (fill + 1) = length-replicate (64 - (fill + 1)) 0 in
      blit_to_end marked (fill + 1) zeros length-marked (omega (arith, v))
      ∙ ap (λ t. t ++ zeros) take-marked
      ∙ append_assoc w (0x80 ∷ []) zeros

  length-cleared : length cleared ≡ 64
  length-cleared =
      length-blit marked (fill + 1) (replicate (64 - (fill + 1)) 0)
        (omega (arith, v, length-marked, length-replicate {A = ℕ} (64 - (fill + 1)) 0))
      ∙ length-marked

  -- There is none: the number of bits goes into a block of its own.
  two_blocks :
      56 ≤ fill
      → hashed st.buffered.core (w ++ ending fill st.bits)
        ≡ (sha1_block (sha1_block st.buffered.core cleared) (last_block cleared 0 st.bits), [])
  two_blocks full =
      let a : ℕ = 64 - (fill + 1) in
      let second : List ℕ = replicate 56 0 ++ bytes_end in
      let core' = sha1_block st.buffered.core cleared in
      let k : (119 - fill) % 64 ≡ a + 56 = omega (arith, v) in
      let cut : w ++ ending fill st.bits ≡ cleared ++ second =
        ap (λ n. w ++ ((0x80 ∷ []) ++ (replicate n 0 ++ bytes_end))) k
        ∙ ap (λ t. w ++ ((0x80 ∷ []) ++ (t ++ bytes_end))) (replicate_add a 56 0)
        ∙ ap (λ t. w ++ ((0x80 ∷ []) ++ t))
            (append_assoc (replicate a 0) (replicate 56 0) bytes_end)
        ∙ sym (append_assoc w ((0x80 ∷ []) ++ replicate a 0) second)
        ∙ ap (λ t. t ++ second) (sym cleared-eq) in
      let l : 64 ≡ length second = omega (
        arith,
        length-append (replicate 56 0) bytes_end,
        length-bits_bytes st.bits,
        length-replicate {A = ℕ} 56 0,
      ) in
      let last : last_block cleared 0 st.bits ≡ second =
        last_block_lem cleared 0 st.bits length-cleared (omega arith) in
      ap (hashed st.buffered.core) cut
      ∙ blocks_into-block 64 sha1_block (omega arith) st.buffered.core cleared second
          (sym length-cleared)
      ∙ ap (hashed core') (sym (append-nil second))
      ∙ blocks_into-block 64 sha1_block (omega arith) core' second [] l
      ∙ blocks_into-short 64 sha1_block (omega arith) _ [] (omega arith)
      ∙ ap (λ b. (sha1_block core' b, [])) (sym last)

  final_lem : final st ≡ words_bytes (hashed st.buffered.core (w ++ ending fill st.bits)).0
  unfolding final
  final_lem = elim (Bool-cases (ltb 56 (fill + 1))) [
    | inl e ↦ rw e (ap (λ r. words_bytes r.0) (sym (two_blocks (ground arith))))
    | inr e ↦ rw e (ap (λ r. words_bytes r.0) (sym (one_block (ground arith))))
  ]

-- The digest of one update is that of the definition: the message, the bit 1, zeros and the number
-- of bits modulo 2 ^ 64, in blocks of 64 bytes.
pub final-update : (m : List ℕ) → final (update init m) ≡ reference m
final-update m =
    final_lem st u.valid
    ∙ ap (λ n. words_bytes (hashed st.buffered.core (waiting st.buffered ++ ending n st.bits)).0)
        (sym (length-w st u.valid)
          ∙ ap (λ r. length r.1) view
          ∙ length-blocks_into_mod 64 sha1_block (omega arith) initial m)
    ∙ ap
        (λ b.
          words_bytes (hashed st.buffered.core (waiting st.buffered ++ ending (length m % 64) b)).0)
        counted
    ∙ ap (λ r. words_bytes (hashed r.0 (r.1 ++ ending (length m % 64) (u64 (length m * 8)))).0) view
    ∙ ap (λ r. words_bytes r.0) (sym (blocks_into-append 64 sha1_block (omega arith) initial m _))
  where
    st : State
    st = update init m

    u : TakesIn 64 sha1_block init.buffered m (update init m).buffered
    u = update-TakesIn init m init-IsBuffered

    view : stands (update init m).buffered ≡ hashed initial m
    view = u.view ∙ unfold init in refl

    counted : (update init m).bits ≡ u64 (length m * 8)
    counted = unfold update init in omega arith
