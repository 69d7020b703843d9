-- ===== src/Pfx/Gost/RoundTrip.antt =====
-- What a password protects with the GOST algorithms, the same password gives back.
use libpogost.Base.{
  ℕ, ◌≤◌, ◌<◌, ◌≡◌, refl, ◌∙◌, ◌⊎◌, inl, inr, true, false, none, some, List, arith, ◌==◌,
  if◌then◌else◌, Bool-cases, length, take-eq_self, Below, Buffer, bytes, is_null, contents,
  is_missing,
}
use libpogost.Hmac.Pbkdf2.{pbkdf2_streebog512-total}
use libpogost.Gost28147.{setkey_raw}
use libpogost.Gost28147.Sbox.{sbox_tc26_z}
use libpogost.Gost28147.Modes.Feedback.{cfb_crypt-round_trip}
use libpogost.Keybag.{kdf, kdf_rounds, wrap, blob_crypt}
use libpogost.Keybag.Wrap.{wrap-wrap}
use libpogost.Keybag.Blob.{blob_crypt-blob_crypt, kdf-total}
use libpogost.Pfx.Gost.{gost89_encrypt, gost89_decrypt, cp80_wrap, cp80_encrypt, cp80_decrypt}

-- With a password that is not missing, a salt that is not empty and at least one iteration, every
-- content is encrypted to as many bytes, and decryption gives it back.
gost89_decrypt-gost89_encrypt :
    (pass : Buffer) (salt text iv : List ℕ) (iter : ℕ)
    → is_missing pass ≡ false
    → 0 < length salt
    → 0 < iter
    → (secret : List ℕ) × (gost89_encrypt true (bytes text) pass (bytes salt) iter (some iv)
        ≡ some secret)
      × (length secret ≡ length text)
      × (gost89_decrypt true (bytes secret) pass (bytes salt) iter (some iv) ≡ some text)
unfolding gost89_encrypt gost89_decrypt
gost89_decrypt-gost89_encrypt pass salt text iv iter p h pos =
    let key = pbkdf2_streebog512-total 32 pass (bytes salt) iter p refl pos (omega arith) in
    let r = cfb_crypt-round_trip true (setkey_raw key.0 sbox_tc26_z) iv text in
    let a : (length salt == 0) ≡ false = ground arith in
    let b : (iter == 0) ≡ false = ground arith in
    (r.1, rw (p, a, b, key.1, r.2) refl, r.3, rw (p, a, b, key.1, r.4) refl)

module _ (pass : Buffer) (salt : List ℕ) (iter : ℕ) where
  abbrev bag_key : List ℕ
  bag_key = kdf_rounds iter 1 (contents pass) salt

  cp80_encrypt_lem :
      (blob : List ℕ)
      → is_missing pass ≡ false
      → 8 ≤ length salt
      → 0 < iter
      → iter ≤ 1000000
      → cp80_encrypt true (bytes blob) pass (bytes salt) iter
        ≡ blob_crypt true (bytes blob) (some bag_key) (bytes salt) 1
  unfolding cp80_encrypt
  cp80_encrypt_lem blob p h pos few = rw (kdf-total pass salt iter p h pos few) refl

  -- With a password that is not missing, a salt of eight bytes or more and between one and 1000000
  -- iterations: a key of 32 or 64 bytes is wrapped to as many bytes with an authentication code of
  -- four, and the key that the password gives unwraps it, with the same code.
  pub wrap-cp80_wrap :
      (raw ukm : List ℕ)
      → is_missing pass ≡ false
      → 8 ≤ length salt
      → 0 < iter
      → iter ≤ 1000000
      → (length raw ≡ 32) ⊎ (length raw ≡ 64)
      → Below 256 raw
      → length ukm ≡ 8
      → (key : List ℕ) × (secret : List ℕ) × (mac : List ℕ) × (kdf true pass (bytes salt) iter
          ≡ some key)
        × (cp80_wrap true true (bytes raw) pass (bytes salt) iter (some ukm) ≡ some (secret, mac))
        × (length secret ≡ length raw)
        × (length mac ≡ 4)
        × (wrap true true (bytes secret) (some key) (bytes ukm) 0 ≡ some (raw, mac))
  unfolding cp80_wrap
  wrap-cp80_wrap raw ukm p h pos few sizes fits eight =
      let d = kdf-total pass salt iter p h pos few in
      let w = wrap-wrap raw bag_key ukm sizes fits eight in
      (bag_key, w.0, w.1, d, rw (d, take-eq_self 8 ukm (omega arith)) w.2, w.3, w.4, w.5)

-- With a salt of eight bytes or more, between one and 1000000 iterations and a password that is not
-- missing, every blob is encrypted to as many bytes; the same password then decrypts it, unless it
-- is an empty one given as a null pointer: decryption refuses that.
pub cp80_decrypt-cp80_encrypt :
    (pass : Buffer) (salt blob : List ℕ) (iter : ℕ)
    → is_missing pass ≡ false
    → 8 ≤ length salt
    → 0 < iter
    → iter ≤ 1000000
    → (secret : List ℕ) × (cp80_encrypt true (bytes blob) pass (bytes salt) iter ≡ some secret)
      × (length secret ≡ length blob)
      × (cp80_decrypt true (bytes secret) pass (bytes salt) iter
          ≡ (if is_null pass then none else some blob))
unfolding cp80_decrypt
cp80_decrypt-cp80_encrypt pass salt blob iter p h pos few =
    let d = kdf-total pass salt iter p h pos few in
    let r = blob_crypt-blob_crypt blob (bag_key pass salt iter) salt h in
    let e = cp80_encrypt_lem pass salt iter blob p h pos few ∙ r.1 in
    (r.0, e, r.2, elim (Bool-cases (is_null pass)) [ inl n ↦ rw n refl | inr n ↦ rw (n, d) r.3 ])
