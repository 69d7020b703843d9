-- ===== src/KuznyechikModes/Mgm/Sealed.antt =====
-- The sealed messages of MGM.
use libpogost.Base.{
  ℕ, zero, suc, ◌-◌, ◌*◌, ◌≤◌, ◌<◌, min, bit_and, bit_or, ◌≡◌, refl, sym, ap, ◌∙◌, inl, inr, Bool,
  true, not, none, some, List, [], ◌∷◌, ◌++◌, arith, ltb, if◌then◌else◌, Bool-cases, length, set,
  take, drop, replicate, length-append, length-set, length-take, length-drop, take-append-drop,
  take-append, drop-append, eq-nil_of_length, u64, byte_at, xor_bytes, length-xor_bytes,
  xor_bytes-cancel, memeq, memeq_self, eq_of_memeq,
}
use libpogost.Kdf.{put_be64}
use libpogost.KuznyechikModes.{BlockCipher}
use libpogost.KuznyechikModes.Mgm.Words.{length-put_be64}
use libpogost.KuznyechikModes.Mgm.{
  mgm_incr_r, mgm_incr_l, gf128_mul, stream_loop, stream, sum_block, sum_loop, mgm_tag, mgm_encrypt,
  mgm_decrypt,
}

length-mgm_incr_r : (b : List ℕ) → length b ≡ 16 → length (mgm_incr_r b) ≡ 16
unfolding mgm_incr_r
length-mgm_incr_r b h = length-append (take 8 b) _ ∙ omega (arith, length-take 8 b, length-put_be64)

length-mgm_incr_l : (b : List ℕ) → length b ≡ 16 → length (mgm_incr_l b) ≡ 16
unfolding mgm_incr_l
length-mgm_incr_l b h = length-append _ (drop 8 b) ∙ omega (arith, length-drop 8 b, length-put_be64)

length-gf128_mul : (x y : List ℕ) → length (gf128_mul x y) ≡ 16
unfolding gf128_mul
length-gf128_mul x y = length-append (put_be64 _) (put_be64 _) ∙ omega (arith, length-put_be64)

round_length : (l : ℕ) → (if ltb l 16 then l else 16) ≡ min l 16
round_length l = ground arith

module _ (E : BlockCipher) (ctx : E.Ctx) where
  stream_loop-suc :
      (fuel : ℕ) (y rest : List ℕ) (n : ℕ)
      → 0 < length rest
      → n ≡ min (length rest) 16
      → stream_loop E (suc fuel) ctx y rest
        ≡ xor_bytes (take n rest) (E.encrypt ctx y)
          ++ stream_loop E fuel ctx (mgm_incr_r y) (drop n rest)
  unfolding stream_loop
  stream_loop-suc fuel y rest n p e =
      let some_left : ltb 0 (length rest) ≡ true = ground arith in
      let taken : (if ltb (length rest) 16 then length rest else 16) ≡ n =
        round_length (length rest) ∙ sym e in
      rw (some_left, taken) refl

  stream_loop-nil : (fuel : ℕ) (y : List ℕ) → stream_loop E fuel ctx y [] ≡ []
  unfolding stream_loop
  stream_loop-nil zero y = refl
  stream_loop-nil (suc fuel) y = refl

  -- The same stream again gives the input back.
  stream_loop-stream_loop :
      (fuel : ℕ) (y rest : List ℕ)
      → length y ≡ 16
      → length rest ≤ fuel
      → (length (stream_loop E fuel ctx y rest) ≡ length rest)
        × (stream_loop E fuel ctx y (stream_loop E fuel ctx y rest) ≡ rest)
  stream_loop-stream_loop fuel y [] h fits =
      let e = stream_loop-nil fuel y in rw (e, e) (refl, refl)
  stream_loop-stream_loop zero y (x ∷ rest) h fits = absurd (omega arith)
  stream_loop-stream_loop (suc fuel) y (x ∷ rest') h fits =
      let rest = x ∷ rest' in
      let n = min (length rest) 16 in
      let s = E.encrypt ctx y in
      let ls = E.length-encrypt ctx y h in
      let c = xor_bytes (take n rest) s in
      let out = stream_loop E fuel ctx (mgm_incr_r y) (drop n rest) in
      let ih =
        stream_loop-stream_loop fuel (mgm_incr_r y) (drop n rest) (length-mgm_incr_r y h)
          (omega (arith, length-drop n rest)) in
      let lt = length-take n rest in
      let lc : n ≡ length c = omega (arith, length-xor_bytes (take n rest) s) in
      let once = stream_loop-suc fuel y rest n (omega arith) refl in
      let whole : length (c ++ out) ≡ length rest =
        omega (arith, length-append c out, ih.0, length-drop n rest) in
      let twice = stream_loop-suc fuel y (c ++ out) n (omega arith) (omega arith) in
      let back = xor_bytes-cancel (take n rest) s (omega arith) in
      (
        rw once whole,
        rw (once, twice, take-append n c out lc, drop-append n c out lc, ih.1, back)
            (take-append-drop n rest),
      )

  stream_lem :
      (nonce in_ : List ℕ)
      → stream E ctx nonce in_
        ≡ stream_loop E
            (length in_)
            ctx
            (E.encrypt ctx (set nonce 0 (bit_and (byte_at nonce 0) 0x7f)))
            in_
  unfolding stream
  stream_lem nonce in_ = elim (Bool-cases (ltb 0 (length in_))) [
    | inl e ↦ rw e refl
    | inr e ↦ rw (e, eq-nil_of_length in_ (ground (arith, e))) (sym (stream_loop-nil _ _))
  ]

  stream-stream :
      (nonce in_ : List ℕ)
      → length nonce ≡ 16
      → (length (stream E ctx nonce in_) ≡ length in_)
        × (stream E ctx nonce (stream E ctx nonce in_) ≡ in_)
  stream-stream nonce in_ h =
      let y = E.encrypt ctx (set nonce 0 (bit_and (byte_at nonce 0) 0x7f)) in
      let ly : length y ≡ 16 = E.length-encrypt ctx _ (length-set nonce 0 _ ∙ h) in
      let out = stream_loop E (length in_) ctx y in_ in
      let u = stream_loop-stream_loop (length in_) y in_ ly (omega arith) in
      (
        ap length (stream_lem nonce in_) ∙ u.0,
        ap (λ t. stream E ctx nonce t) (stream_lem nonce in_)
            ∙ stream_lem nonce out
            ∙ ap (λ n. stream_loop E n ctx y out) u.0
            ∙ u.1,
      )

  -- The sum and its counter keep their length.
  length-sum_block :
      (z sum block : List ℕ)
      → length z ≡ 16
      → length sum ≡ 16
      → length (sum_block E ctx z sum block) ≡ 16
  unfolding sum_block
  length-sum_block z sum block h k =
      length-xor_bytes sum (gf128_mul (E.encrypt ctx z) block)
      ∙ omega (arith, length-gf128_mul (E.encrypt ctx z) block)

  length-sum_loop :
      (fuel : ℕ) (z sum rest : List ℕ)
      → length z ≡ 16
      → length sum ≡ 16
      → (length (sum_loop E fuel ctx z sum rest).0 ≡ 16)
        × (length (sum_loop E fuel ctx z sum rest).1 ≡ 16)
  unfolding sum_loop
  length-sum_loop zero z sum rest h k = (h, k)
  length-sum_loop (suc fuel) z sum rest h k = elim (Bool-cases (ltb 0 (length rest))) [
    | inl e ↦
        let n = if ltb (length rest) 16 then length rest else 16 in
        let block = take n rest ++ replicate (16 - n) 0 in
        rw e (
          length-sum_loop fuel (mgm_incr_l z) (sum_block E ctx z sum block) (drop n rest)
            (length-mgm_incr_l z h) (length-sum_block z sum block h k))
    | inr e ↦ rw e (h, k)
  ]

  length-mgm_tag :
      (nonce aad ct : List ℕ) → length nonce ≡ 16 → length (mgm_tag E ctx nonce aad ct) ≡ 16
  unfolding mgm_tag
  length-mgm_tag nonce aad ct h =
      let z = E.encrypt ctx (set nonce 0 (bit_or (byte_at nonce 0) 0x80)) in
      let lz : length z ≡ 16 = E.length-encrypt ctx _ (length-set nonce 0 _ ∙ h) in
      let a = length-sum_loop (length aad) z (replicate 16 0) aad lz refl in
      let c = length-sum_loop (length ct) _ _ ct a.0 a.1 in
      let len_block = put_be64 (u64 (length aad * 8)) ++ put_be64 (u64 (length ct * 8)) in
      E.length-encrypt ctx _ (length-sum_block _ _ len_block c.0 c.1)

-- For a nonce of 16 bytes: decryption with the same key, nonce and associated bytes accepts what
-- encryption writes and gives the message back, which has as many bytes.
pub mgm_decrypt-mgm_encrypt :
    (E : BlockCipher) (key nonce aad in_ : List ℕ)
    → length nonce ≡ 16
    → let sealed = mgm_encrypt E key nonce aad in_ in
      (length sealed.0 ≡ length in_)
      × (length sealed.1 ≡ 16)
      × (mgm_decrypt E key nonce aad sealed.0 sealed.1 ≡ some in_)
unfolding mgm_encrypt mgm_decrypt
mgm_decrypt-mgm_encrypt E key nonce aad in_ h =
    let ctx = E.setkey key in
    let out = stream E ctx nonce in_ in
    let twice = stream-stream E ctx nonce in_ h in
    (
      twice.0,
      length-mgm_tag E ctx nonce aad out h,
      rw (memeq_self (mgm_tag E ctx nonce aad out)) (ap some twice.1),
    )

-- For a nonce and a tag of 16 bytes: what decryption accepts as a message, with its tag, is exactly
-- what encryption of that message writes.
pub mgm_encrypt-mgm_decrypt :
    (E : BlockCipher) (key nonce aad in_ tag m : List ℕ)
    → length nonce ≡ 16
    → length tag ≡ 16
    → mgm_decrypt E key nonce aad in_ tag ≡ some m
    → mgm_encrypt E key nonce aad m ≡ (in_, tag)
unfolding mgm_encrypt mgm_decrypt
mgm_encrypt-mgm_decrypt E key nonce aad in_ tag m h k accepted =
    let ctx = E.setkey key in
    elim (Bool-cases (memeq (mgm_tag E ctx nonce aad in_) tag)) [
      | inl e ↦
          let plain : stream E ctx nonce in_ ≡ m = accepted_plain _ _ _ e accepted in
          let back : stream E ctx nonce m ≡ in_ =
            ap (λ t. stream E ctx nonce t) (sym plain) ∙ (stream-stream E ctx nonce in_ h).1 in
          let same = eq_of_memeq _ _ (length-mgm_tag E ctx nonce aad in_ h ∙ sym k) e in
          ap (λ t. (t, mgm_tag E ctx nonce aad t)) back ∙ ap (λ t. (in_, t)) same
      | inr e ↦ absurd (ground (arith, accepted, e))
    ]
  where
    accepted_plain :
        (b : Bool) (x m : List ℕ) → b ≡ true → (if not b then none else some x) ≡ some m → x ≡ m
    accepted_plain b x m e h = ground (arith, e, h)
