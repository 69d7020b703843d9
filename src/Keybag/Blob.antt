-- ===== src/Keybag/Blob.antt =====
-- An encrypted blob is decrypted again, and a password gives a key.
use libpogost.Base.{
  ℕ, ◌≤◌, ◌<◌, ◌≡◌, refl, true, false, some, List, arith, ltb, ◌==◌, length, take, Buffer, bytes,
  contents, is_missing,
}
use libpogost.Gost28147.{setkey_raw}
use libpogost.Gost28147.Sbox.{sbox_cryptopro_a}
use libpogost.Gost28147.Modes.Feedback.{cfb_crypt-round_trip}
use libpogost.Keybag.{kdf, kdf_rounds, blob_crypt}

-- With any key, and a salt of eight bytes or more, every blob is encrypted to as many bytes, and
-- decryption gives it back.
pub blob_crypt-blob_crypt :
    (blob key salt : List ℕ)
    → 8 ≤ length salt
    → (secret : List ℕ) × (blob_crypt true (bytes blob) (some key) (bytes salt) 1 ≡ some secret)
      × (length secret ≡ length blob)
      × (blob_crypt true (bytes secret) (some key) (bytes salt) 0 ≡ some blob)
unfolding blob_crypt
blob_crypt-blob_crypt blob key salt h =
    let r = cfb_crypt-round_trip false (setkey_raw key sbox_cryptopro_a) (take 8 salt) blob in
    let a : ltb (length salt) 8 ≡ false = ground arith in
    (r.1, rw (a, r.2) refl, r.3, rw (a, r.4) refl)

pub kdf-total :
    (pass : Buffer) (salt : List ℕ) (iter : ℕ)
    → is_missing pass ≡ false
    → 8 ≤ length salt
    → 0 < iter
    → iter ≤ 1000000
    → kdf true pass (bytes salt) iter ≡ some (kdf_rounds iter 1 (contents pass) salt)
unfolding kdf
kdf-total pass salt iter p h pos few =
    let a : ltb (length salt) 8 ≡ false = ground arith in
    let b : (iter == 0) ≡ false = ground arith in
    let c : ltb 1000000 iter ≡ false = not_below iter few in rw (p, a, b, c) refl
  where
    not_below : (n : ℕ) → n ≤ 1000000 → ltb 1000000 n ≡ false
    not_below n h = ground arith
