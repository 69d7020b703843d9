-- ===== src/Keybag/Wrap.antt =====
-- A wrapped key is unwrapped again, with the same authentication code.
use libpogost.Base.{
  ℕ, zero, suc, ◌*◌, ◌/◌, ◌<◌, ◌≡◌, refl, sym, ap₂, ◌∙◌, ◌⊎◌, true, false, not, ◌&&◌, some, List,
  ◌++◌, arith, ◌==◌, length, take, drop, length-append, length-take, length-drop, take-append-drop,
  take-append, drop-append, eq-nil_of_length, Below, Below-take, Below-drop, bytes,
}
use libpogost.Gost28147.{State, setkey_raw, encrypt_raw, decrypt_raw}
use libpogost.Gost28147.Sbox.{sbox_cryptopro_a}
use libpogost.Gost28147.Feistel.{length-encrypt_raw, decrypt_raw-encrypt_raw}
use libpogost.Gost28147.Modes.Imit.{mac4_raw-total}
use libpogost.Kdf.Output.{kdf_tree_256-total}
use libpogost.Keybag.{crypt_blocks, wrap_with, wrap, label}

length-crypt_blocks :
    (st : State) (k : ℕ) (xs : List ℕ) → length (crypt_blocks st true k xs) ≡ 8 * k
unfolding crypt_blocks
length-crypt_blocks st zero xs = refl
length-crypt_blocks st (suc k) xs = omega (
  arith,
  length-append (encrypt_raw st (take 8 xs)) (crypt_blocks st true k (drop 8 xs)),
  length-encrypt_raw st (take 8 xs),
  length-crypt_blocks st k (drop 8 xs),
)

-- Block by block, decryption undoes encryption.
crypt_blocks-crypt_blocks :
    (st : State) (k : ℕ) (xs : List ℕ)
    → length xs ≡ 8 * k
    → Below 256 xs
    → crypt_blocks st false k (crypt_blocks st true k xs) ≡ xs
unfolding crypt_blocks
crypt_blocks-crypt_blocks st zero xs h fits = sym (eq-nil_of_length xs h)
crypt_blocks-crypt_blocks st (suc k) xs h fits =
    let c = encrypt_raw st (take 8 xs) in
    let rest = crypt_blocks st true k (drop 8 xs) in
    let l = length-encrypt_raw st (take 8 xs) in
    let block =
      decrypt_raw-encrypt_raw st (take 8 xs)
        (omega (arith, length-take 8 xs), Below-take 256 8 xs fits) in
    let later =
      crypt_blocks-crypt_blocks st k (drop 8 xs) (omega (arith, length-drop 8 xs))
        (Below-drop 256 8 xs fits) in
    ap₂ (λ b r. decrypt_raw st b ++ crypt_blocks st false k r) (take-append 8 c rest (sym l))
      (drop-append 8 c rest (sym l))
    ∙ ap₂ (λ b r. b ++ r) block later
    ∙ take-append-drop 8 xs

-- What `wrap_with` does for `k` blocks.
wrap_with-wrap_with :
    (ke ukm raw : List ℕ) (k : ℕ)
    → length raw ≡ 8 * k
    → 0 < k
    → Below 256 raw
    → (secret : List ℕ) × (mac : List ℕ) × (wrap_with ke raw ukm 1 ≡ some (secret, mac))
      × (length secret ≡ length raw)
      × (length mac ≡ 4)
      × (wrap_with ke secret ukm 0 ≡ some (raw, mac))
unfolding wrap_with
wrap_with-wrap_with ke ukm raw k h pos fits =
    let st = setkey_raw ke sbox_cryptopro_a in
    let mac = mac4_raw-total st ukm raw k h pos in
    let secret = crypt_blocks st true k raw in
    let n : length raw / 8 ≡ k = omega arith in
    let l = length-crypt_blocks st k raw in
    let n' : length secret / 8 ≡ k = omega arith in
    let back = crypt_blocks-crypt_blocks st k raw h fits in
    (secret, mac.0, rw (n, mac.1) refl, l ∙ sym h, mac.2, rw (n', back, mac.1) refl)

-- A key of 32 or 64 bytes under keying material of eight bytes: it is wrapped to as many bytes and
-- an authentication code of four, and unwrapping returns the key and the same code.
pub wrap-wrap :
    (raw key ukm : List ℕ)
    → (length raw ≡ 32) ⊎ (length raw ≡ 64)
    → Below 256 raw
    → length ukm ≡ 8
    → (secret : List ℕ) × (mac : List ℕ) × (wrap true true (bytes raw) (some key) (bytes ukm) 1
        ≡ some (secret, mac))
      × (length secret ≡ length raw)
      × (length mac ≡ 4)
      × (wrap true true (bytes secret) (some key) (bytes ukm) 0 ≡ some (raw, mac))
unfolding wrap
wrap-wrap raw key ukm sizes fits eight =
    let ke = kdf_tree_256-total 1 key label ukm (omega arith) (omega arith) (omega arith) in
    let k : length raw ≡ 8 * (length raw / 8) = omega (arith, sizes) in
    let w = wrap_with-wrap_with ke.0 ukm raw (length raw / 8) k (omega (arith, sizes)) fits in
    let e : (length ukm == 8) ≡ true = ground arith in
    let s = size_ok raw sizes in
    let s' = size_ok w.0 (rw w.3 sizes) in
    (w.0, w.1, rw (s, e, ke.1) w.2, w.3, w.4, rw (s', e, ke.1) w.5)
  where
    size_ok :
        (xs : List ℕ)
        → (length xs ≡ 32) ⊎ (length xs ≡ 64)
        → (not (length xs == 32) && not (length xs == 64)) ≡ false
    size_ok xs h = ground (arith, h)
