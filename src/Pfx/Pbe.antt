-- ===== src/Pfx/Pbe.antt =====
-- Encryption with RC2 under a password, and decryption again.
use libpogost.Base.{
  ℕ, ◌+◌, ◌-◌, ◌*◌, ◌/◌, ◌%◌, ◌≤◌, ◌≡◌, refl, sym, ap, ◌∙◌, inl, inr, true, false, some, List, [],
  ◌++◌, append_assoc, arith, ltb, ◌==◌, if◌then◌else◌, Bool-cases, length, take, drop, replicate,
  length-append, length-replicate, length-take, take-append-drop, Below, Below-append,
  Below-replicate, Buffer, bytes,
}
use libpogost.Rc2.{set_key, cbc_encrypt, cbc_decrypt}
use libpogost.Rc2.Block.{IsBlock}
use libpogost.Rc2.Chain.{cbc_decrypt-cbc_encrypt}
use libpogost.Rc2.Join.{cbc_encrypt-append, cbc_encrypt-nil}
use libpogost.Pfx.{pbe_blocks, unpad, rc2_40_pbe_encrypt, rc2_40_pbe_decrypt}
use libpogost.Pfx.Pad.{unpad-padded}
use libpogost.Pfx.Derive.{Accepts, derive_lem, not_below}

-- The padding that fills the last block.
abbrev fill_of : List ℕ → ℕ
fill_of text = 8 - length text % 8

abbrev pub filled : List ℕ → List ℕ
filled text = text ++ replicate (fill_of text) (fill_of text)

length-filled : (text : List ℕ) → length (filled text) ≡ length text + fill_of text
length-filled text =
    length-append text (replicate (fill_of text) (fill_of text))
    ∙ ap (λ n. length text + n) (length-replicate (fill_of text) (fill_of text))

-- Chaining over the whole blocks and then over the last one is chaining over all of them.
module _ (ks iv text : List ℕ) where
  abbrev full : ℕ
  full = length text / 8 * 8

  abbrev last : List ℕ
  last = drop full text ++ replicate (fill_of text) (fill_of text)

  no_blocks : full ≡ 0 → cbc_encrypt ks iv (take full text) ≡ (iv, [])
  no_blocks e = rw e (cbc_encrypt-nil ks iv)

  first_blocks :
      (if ltb 0 (length text / 8) then cbc_encrypt ks iv (take full text) else (iv, []))
      ≡ cbc_encrypt ks iv (take full text)
  first_blocks = elim (Bool-cases (ltb 0 (length text / 8))) [
    | inl e ↦ rw e refl
    | inr e ↦ rw e (sym (no_blocks (ground (arith, e))))
  ]

  pbe_blocks_lem : pbe_blocks ks iv text ≡ (cbc_encrypt ks iv (filled text)).1
  unfolding pbe_blocks
  pbe_blocks_lem =
      let size : length (take full text) ≡ 8 * (length text / 8) =
        omega (arith, length-take full text) in
      let whole : take full text ++ last ≡ filled text =
        sym (append_assoc (take full text) (drop full text) _)
        ∙ ap (λ t. t ++ replicate (fill_of text) (fill_of text)) (take-append-drop full text) in
      ap (λ f. f.1 ++ (cbc_encrypt ks f.0 last).1) first_blocks
      ∙ sym (ap (λ r. r.1) (cbc_encrypt-append ks (length text / 8) iv (take full text) last size))
      ∙ ap (λ t. (cbc_encrypt ks iv t).1) whole

  pbe_blocks-undone :
      Below 256 text
      → IsBlock iv
      → (length (pbe_blocks ks iv text) ≡ length text + fill_of text)
        × (unpad (cbc_decrypt ks iv (pbe_blocks ks iv text)).1 ≡ some text)
  pbe_blocks-undone fits b =
      let pads = Below-replicate 256 (fill_of text) (fill_of text) (omega arith) in
      let back =
        cbc_decrypt-cbc_encrypt ks iv (filled text) (length text / 8 + 1)
          (omega (arith, length-filled text)) (Below-append 256 text _ fits pads) b in
      (
        ap length pbe_blocks_lem ∙ back.0 ∙ length-filled text,
        ap (λ c. unpad (cbc_decrypt ks iv c).1) pbe_blocks_lem
            ∙ ap (λ r. unpad r.1) back.2
            ∙ unpad-padded text (fill_of text) (omega arith) (omega arith),
      )

-- With a password that is not missing, a salt that is not empty, at least one iteration, a password
-- and salt that fit the buffer of the derivation, bytes to encrypt and room for the result:
-- encryption accepts, gives a whole number of blocks, and decryption accepts these and gives the
-- bytes back.
pub rc2_40_pbe_decrypt-rc2_40_pbe_encrypt :
    (pass : Buffer) (salt text : List ℕ) (iter cap cap' : ℕ)
    → Accepts pass salt iter
    → Below 256 text
    → length text + fill_of text ≤ cap
    → length text + fill_of text ≤ cap'
    → (sealed : List ℕ) × (rc2_40_pbe_encrypt true cap (bytes text) pass (bytes salt) iter
        ≡ some sealed)
      × (length sealed ≡ length text + fill_of text)
      × (rc2_40_pbe_decrypt true cap' (bytes sealed) pass (bytes salt) iter ≡ some text)
unfolding rc2_40_pbe_encrypt rc2_40_pbe_decrypt
rc2_40_pbe_decrypt-rc2_40_pbe_encrypt pass salt text iter cap cap' v fits h h' =
    let key = derive_lem 5 1 pass salt iter v (omega arith) in
    let iv = derive_lem 8 2 pass salt iter v (omega arith) in
    let ks = set_key key.0 40 in
    let u = pbe_blocks-undone ks iv.0 text fits (iv.2, iv.3) in
    let sealed = pbe_blocks ks iv.0 text in
    let a : (length salt == 0) ≡ false = ground (arith, v) in
    let b : (iter == 0) ≡ false = ground (arith, v) in
    let room = not_below cap (length text + fill_of text) h in
    let some_text : (length sealed == 0) ≡ false = ground (arith, u) in
    let whole : (length sealed % 8 == 0) ≡ true = ground (arith, u) in
    let room' = not_below cap' (length sealed) (omega (arith, u)) in
    (
      sealed,
      rw (v.some_pass, a, b, room, key.1, iv.1) refl,
      u.0,
      rw (v.some_pass, a, b, some_text, whole, room', key.1, iv.1) u.1,
    )
