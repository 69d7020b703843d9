-- ===== src/ChaCha20/Aead/Sealed.antt =====
-- Sealed messages: what is sealed is opened again, and nothing else is.
use libpogost.Base.{
  ℕ, ◌+◌, ◌-◌, ◌^◌, ◌≤◌, ◌<◌, ◌≡◌, refl, sym, ap, ◌∙◌, inl, inr, true, false, none, some, List,
  ◌++◌, arith, ltb, Bool-cases, length, take, drop, replicate, length-append, length-take,
  length-drop, take-append-drop, take-append, drop-append, take-eq_self, u32, memeq, memeq_self,
  eq_of_memeq,
}
use mathlib.Core.Option.{some-injective, none-ne-some}
use libpogost.ChaCha20.{chacha_crypt, chacha_init}
use libpogost.ChaCha20.Stream.{length-block, crypt_loop_tail, crypted_twice}
use libpogost.ChaCha20.Aead.{
  Authenticator, narrow, crypt_into, tag, seal, unseal, start_state, xchacha_init,
  chacha20poly1305_encrypt, chacha20poly1305_decrypt, xchacha20poly1305_encrypt,
  xchacha20poly1305_decrypt,
}

narrow_self : (xs : List ℕ) → length xs < 2 ^ 32 → narrow xs ≡ xs
unfolding narrow
narrow_self xs h = take-eq_self (u32 (length xs)) xs (omega arith)

-- A message whose length fits `unsigned int` is crypted as a whole.
crypt_into_whole :
    (st dst src : List ℕ)
    → length st ≡ 16
    → length src < 2 ^ 32
    → take (length src) (crypt_into st dst src).0 ≡ (chacha_crypt st src 20).0
unfolding crypt_into
crypt_into_whole st dst src h fits =
    let l = (crypted_twice st src 20 h).0 in
    rw (narrow_self src fits) (
      take-append (length src) (chacha_crypt st src 20).0
        (drop (0 + length (chacha_crypt st src 20).0) dst) (sym l))

-- The block that makes the key of the authenticator leaves a state of 16 words.
module _ (st : List ℕ) where
  abbrev key : List ℕ × List ℕ
  key = crypt_into st (replicate 32 0) (replicate 32 0)

  length-key : length st ≡ 16 → length key.1 ≡ 16
  unfolding crypt_into narrow chacha_crypt
  length-key h =
      let e = crypt_loop_tail 31 st (replicate 32 0) 20 (omega arith) (omega arith) in
      ap (λ r. length r.1) e ∙ (length-block st 20 h).1

module _ (A : Authenticator) (dst src ad st : List ℕ) where
  -- What `seal` writes, with the stream in place of the buffer.
  abbrev sealed : List ℕ
  sealed =
      (chacha_crypt (key st).1 src 20).0 ++ tag A (key st).0 ad (chacha_crypt (key st).1 src 20).0

  seal_whole : length st ≡ 16 → length src < 2 ^ 32 → seal A dst src ad st ≡ sealed
  unfolding seal
  seal_whole h fits = rw (crypt_into_whole (key st).1 dst src (length-key st h) fits) refl

not_short : (n : ℕ) → 16 ≤ n → ltb n 16 ≡ false
not_short n h = ground arith

length-tag : (A : Authenticator) (k ad text : List ℕ) → length (tag A k ad text) ≡ 16
unfolding tag
length-tag A k ad text = A.length-final _

module _ (A : Authenticator) (dst src ad st : List ℕ) where
  abbrev body : List ℕ
  body = take (length src - 16) src

  abbrev end : List ℕ
  end = drop (length src - 16) src

  -- The two ways through `unseal`, for a source with room for a tag.
  unseal_good :
      16 ≤ length src
      → memeq (tag A (key st).0 ad body) end ≡ true
      → length st ≡ 16
      → length src < 2 ^ 32
      → unseal A dst src ad st ≡ some (chacha_crypt (key st).1 body 20).0
  unfolding unseal
  unseal_good l e h fits =
      let short = not_short (length src) l in
      let lb = length-take (length src - 16) src in
      let n : length src - 16 ≡ length body = omega arith in
      let whole = crypt_into_whole (key st).1 dst body (length-key st h) (omega arith) in
      rw (short, e) (ap (λ k. some (take k (crypt_into (key st).1 dst body).0)) n ∙ ap some whole)

  unseal_bad : memeq (tag A (key st).0 ad body) end ≡ false → unseal A dst src ad st ≡ none
  unfolding unseal
  unseal_bad e = elim (Bool-cases (ltb (length src) 16)) [
    | inl short ↦ rw short refl
    | inr long ↦ rw (long, e) refl
  ]

  unseal_short : length src < 16 → unseal A dst src ad st ≡ none
  unfolding unseal
  unseal_short l = let short : ltb (length src) 16 ≡ true = ground arith in rw short refl

-- From a state of 16 words, and for a message of less than 2 ^ 32 bytes with its tag: what is
-- sealed is the message again after unsealing, whatever the buffers held before.
unseal-seal :
    (A : Authenticator) (dst dst' src ad st : List ℕ)
    → length st ≡ 16
    → length src + 16 < 2 ^ 32
    → unseal A dst' (seal A dst src ad st) ad st ≡ some src
unseal-seal A dst dst' src ad st h fits =
    let out = (chacha_crypt (key st).1 src 20).0 in
    let t = tag A (key st).0 ad out in
    let twice = crypted_twice (key st).1 src 20 (length-key st h) in
    let lt : length t ≡ 16 = length-tag A (key st).0 ad out in
    let l = length-append out t in
    let n : length (out ++ t) - 16 ≡ length out = omega (arith, twice.0) in
    let b : take (length (out ++ t) - 16) (out ++ t) ≡ out = take-append _ out t n in
    let e : drop (length (out ++ t) - 16) (out ++ t) ≡ t = drop-append _ out t n in
    ap (λ s. unseal A dst' s ad st) (seal_whole A dst src ad st h (omega arith))
    ∙ unseal_good A dst' (out ++ t) ad st (omega (arith, twice.0)) (rw (b, e) (memeq_self t)) h
        (omega (arith, twice.0))
    ∙ rw b (ap (λ r. some r.0) twice.1)

-- From a state of 16 words, and for a source of less than 2 ^ 32 bytes: what unseals as a message
-- is exactly what sealing that message writes.
seal-unseal :
    (A : Authenticator) (dst dst' src ad st m : List ℕ)
    → length st ≡ 16
    → length src < 2 ^ 32
    → unseal A dst' src ad st ≡ some m
    → seal A dst m ad st ≡ src
seal-unseal A dst dst' src ad st m h fits accepted =
    elim (Bool-cases (memeq (tag A (key st).0 ad (body A dst' src ad st)) (end A dst' src ad st))) [
      | inr e ↦ absurd (none-ne-some _ (sym (unseal_bad A dst' src ad st e) ∙ accepted))
      | inl e ↦ elim (Bool-cases (ltb (length src) 16)) [
        | inl short ↦
            absurd (none-ne-some _ (sym (unseal_short A dst' src ad st (ground arith)) ∙ accepted))
        | inr long ↦ resealed e (ground arith)
      ]
    ]
  where
    b : List ℕ
    b = take (length src - 16) src

    resealed :
        memeq (tag A (key st).0 ad b) (drop (length src - 16) src) ≡ true
        → 16 ≤ length src
        → seal A dst m ad st ≡ src
    resealed e l =
        let plain : (chacha_crypt (key st).1 b 20).0 ≡ m =
          some-injective _ _ (sym (unseal_good A dst' src ad st l e h fits) ∙ accepted) in
        let twice = crypted_twice (key st).1 b 20 (length-key st h) in
        let lb = length-take (length src - 16) src in
        let back : (chacha_crypt (key st).1 m 20).0 ≡ b =
          ap (λ x. (chacha_crypt (key st).1 x 20).0) (sym plain) ∙ ap (λ r. r.0) twice.1 in
        let small : length m < 2 ^ 32 = omega (arith, ap length plain, twice.0) in
        let same =
          eq_of_memeq _ _
            (omega (arith, length-tag A (key st).0 ad b, length-drop (length src - 16) src)) e in
        seal_whole A dst m ad st h small
        ∙ ap (λ x. x ++ tag A (key st).0 ad x) back
        ∙ ap (λ t. b ++ t) same
        ∙ take-append-drop (length src - 16) src

length-start_state : (k : List ℕ) (nonce : ℕ) → length (start_state k nonce) ≡ 16
unfolding start_state chacha_init
length-start_state k nonce = refl

length-xchacha_init : (k nonce : List ℕ) → length (xchacha_init k nonce) ≡ 16
unfolding xchacha_init chacha_init
length-xchacha_init k nonce = refl

length-seal :
    (A : Authenticator) (dst src ad st : List ℕ)
    → length st ≡ 16
    → length src < 2 ^ 32
    → length (seal A dst src ad st) ≡ length src + 16
length-seal A dst src ad st h fits =
    let out = (chacha_crypt (key st).1 src 20).0 in
    ap length (seal_whole A dst src ad st h fits)
    ∙ omega (
      arith,
      length-append out (tag A (key st).0 ad out),
      length-tag A (key st).0 ad out,
      (crypted_twice (key st).1 src 20 (length-key st h)).0,
    )

-- Both entry points write the message and 16 bytes.
pub length-chacha20poly1305_encrypt :
    (A : Authenticator) (dst src ad k : List ℕ) (nonce : ℕ) (xnonce : List ℕ)
    → length src < 2 ^ 32
    → (length (chacha20poly1305_encrypt A dst src ad nonce k) ≡ length src + 16)
      × (length (xchacha20poly1305_encrypt A dst src ad xnonce k) ≡ length src + 16)
unfolding chacha20poly1305_encrypt xchacha20poly1305_encrypt
length-chacha20poly1305_encrypt A dst src ad k nonce xnonce fits = (
  length-seal A dst src ad (start_state k nonce) (length-start_state k nonce) fits,
  length-seal A dst src ad (xchacha_init k xnonce) (length-xchacha_init k xnonce) fits,
)

-- For either entry point, and a message that has less than 2 ^ 32 bytes with its tag: decryption
-- with the same key, nonce and associated bytes accepts what encryption writes and gives the
-- message back, whatever the buffers held before.
pub chacha20poly1305_decrypt-encrypt :
    (A : Authenticator) (dst dst' src ad k : List ℕ) (nonce : ℕ) (xnonce : List ℕ)
    → length src + 16 < 2 ^ 32
    → (chacha20poly1305_decrypt A dst' (chacha20poly1305_encrypt A dst src ad nonce k) ad nonce k
        ≡ some src)
      × (xchacha20poly1305_decrypt A dst'
            (xchacha20poly1305_encrypt A dst src ad xnonce k)
            ad
            xnonce
            k
          ≡ some src)
unfolding chacha20poly1305_decrypt chacha20poly1305_encrypt xchacha20poly1305_decrypt
    xchacha20poly1305_encrypt
chacha20poly1305_decrypt-encrypt A dst dst' src ad k nonce xnonce fits = (
  unseal-seal A dst dst' src ad (start_state k nonce) (length-start_state k nonce) fits,
  unseal-seal A dst dst' src ad (xchacha_init k xnonce) (length-xchacha_init k xnonce) fits,
)

-- For a source of less than 2 ^ 32 bytes: when chacha20poly1305_decrypt accepts the source with a
-- message, the source is exactly what chacha20poly1305_encrypt writes for that message.
pub chacha20poly1305_encrypt-decrypt :
    (A : Authenticator) (dst dst' src ad k m : List ℕ) (nonce : ℕ)
    → length src < 2 ^ 32
    → chacha20poly1305_decrypt A dst' src ad nonce k ≡ some m
    → chacha20poly1305_encrypt A dst m ad nonce k ≡ src
unfolding chacha20poly1305_decrypt chacha20poly1305_encrypt
chacha20poly1305_encrypt-decrypt A dst dst' src ad k m nonce fits accepted =
    seal-unseal A dst dst' src ad (start_state k nonce) m (length-start_state k nonce) fits accepted

-- For a source of less than 2 ^ 32 bytes: when xchacha20poly1305_decrypt accepts the source with a
-- message, the source is exactly what xchacha20poly1305_encrypt writes for that message.
xchacha20poly1305_encrypt-decrypt :
    (A : Authenticator) (dst dst' src ad k m nonce : List ℕ)
    → length src < 2 ^ 32
    → xchacha20poly1305_decrypt A dst' src ad nonce k ≡ some m
    → xchacha20poly1305_encrypt A dst m ad nonce k ≡ src
unfolding xchacha20poly1305_decrypt xchacha20poly1305_encrypt
xchacha20poly1305_encrypt-decrypt A dst dst' src ad k m nonce fits accepted =
    seal-unseal A dst dst' src ad (xchacha_init k nonce) m (length-xchacha_init k nonce) fits
      accepted
