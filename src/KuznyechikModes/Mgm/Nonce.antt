-- ===== src/KuznyechikModes/Mgm/Nonce.antt =====
-- The nonces of TLS 1.3.
use libpogost.Base.{
  ℕ, zero, suc, ◌+◌, ◌-◌, ◌*◌, ◌/◌, ◌%◌, ◌^◌, ◌<◌, bit_and, bit_xor, ◌≡◌, refl, sym, ap, ◌∙◌, ◌≢◌,
  List, [], ◌∷◌, arith, length, u8, ◌>>>◌, bit_xor-left_cancel, bit_and_mask, byte_at,
}
use libpogost.KuznyechikModes.Mgm.{make_nonce}

table : ℕ → (ℕ → ℕ) → List ℕ
table zero f = []
table (suc n) f = f 0 ∷ table n (λ i. f (suc i))

table-byte_at : (xs : List ℕ) → xs ≡ table (length xs) (λ i. byte_at xs i)
unfolding table
table-byte_at [] = refl
table-byte_at (x ∷ xs) = ap (λ t. x ∷ t) (table-byte_at xs)

-- The byte of the sequence number that goes into byte `15 - i`.
abbrev digit : ℕ → ℕ → ℕ
digit seq i = u8 (bit_and (seq >>> (8 * i)) 0xff)

digit_lem : (seq i : ℕ) → digit seq i ≡ seq / 2 ^ (8 * i) % 256
digit_lem seq i =
    let v = seq / 2 ^ (8 * i) in
    let e : v ≡ v / 256 * 2 ^ 8 + v % 256 = omega arith in
    let m = bit_and_mask 8 (v / 256) (v % 256) (omega arith) in
    ap (λ t. u8 (bit_and t 0xff)) e
    ∙ ap u8 m
    ∙ (let w : v % 256 % 2 ^ 8 ≡ v % 256 = omega arith in w)

-- The last eight bytes of a nonce.
byte_at-make_nonce :
    (f : ℕ → ℕ) (seq i : ℕ)
    → i < 8
    → byte_at (make_nonce (table 16 f) seq) (15 - i) ≡ bit_xor (f (15 - i)) (digit seq i)
unfolding make_nonce table
byte_at-make_nonce f seq zero h = refl
byte_at-make_nonce f seq (suc zero) h = refl
byte_at-make_nonce f seq (suc (suc zero)) h = refl
byte_at-make_nonce f seq (suc (suc (suc zero))) h = refl
byte_at-make_nonce f seq (suc (suc (suc (suc zero)))) h = refl
byte_at-make_nonce f seq (suc (suc (suc (suc (suc zero))))) h = refl
byte_at-make_nonce f seq (suc (suc (suc (suc (suc (suc zero)))))) h = refl
byte_at-make_nonce f seq (suc (suc (suc (suc (suc (suc (suc zero))))))) h = refl
byte_at-make_nonce f seq (suc (suc (suc (suc (suc (suc (suc (suc i)))))))) h = absurd (omega arith)

digits_apart :
    (f : ℕ → ℕ) (s t i : ℕ)
    → i < 8
    → make_nonce (table 16 f) s ≡ make_nonce (table 16 f) t
    → s / 2 ^ (8 * i) % 256 ≡ t / 2 ^ (8 * i) % 256
digits_apart f s t i h e =
    let same : bit_xor (f (15 - i)) (digit s i) ≡ bit_xor (f (15 - i)) (digit t i) =
      sym (byte_at-make_nonce f s i h)
      ∙ ap (λ n. byte_at n (15 - i)) e
      ∙ byte_at-make_nonce f t i h in
    sym (digit_lem s i)
    ∙ sym (bit_xor-left_cancel (f (15 - i)) (digit s i))
    ∙ ap (λ x. bit_xor (f (15 - i)) x) same
    ∙ bit_xor-left_cancel (f (15 - i)) (digit t i)
    ∙ digit_lem t i

eq_of_digits :
    (s t : ℕ)
    → s < 2 ^ 64
    → t < 2 ^ 64
    → ((i : ℕ) → i < 8 → s / 2 ^ (8 * i) % 256 ≡ t / 2 ^ (8 * i) % 256)
    → s ≡ t
eq_of_digits s t p q d = omega (
  arith,
  d 0 (omega arith),
  d 1 (omega arith),
  d 2 (omega arith),
  d 3 (omega arith),
  d 4 (omega arith),
  d 5 (omega arith),
  d 6 (omega arith),
  d 7 (omega arith),
)

make_nonce-injective :
    (iv : List ℕ) (s t : ℕ)
    → length iv ≡ 16
    → s < 2 ^ 64
    → t < 2 ^ 64
    → make_nonce iv s ≡ make_nonce iv t
    → s ≡ t
make_nonce-injective iv s t h p q e =
    let listed : iv ≡ table 16 (λ i. byte_at iv i) =
      table-byte_at iv ∙ ap (λ n. table n (λ i. byte_at iv i)) h in
    let e' = ap (λ v. make_nonce v s) (sym listed) ∙ e ∙ ap (λ v. make_nonce v t) listed in
    eq_of_digits s t p q (λ i k. digits_apart (λ i. byte_at iv i) s t i k e')

-- For one initial vector of 16 bytes: different sequence numbers of 64 bits give different nonces.
pub make_nonce_apart :
    (iv : List ℕ) (s t : ℕ)
    → length iv ≡ 16
    → s < 2 ^ 64
    → t < 2 ^ 64
    → s ≢ t
    → make_nonce iv s ≢ make_nonce iv t
make_nonce_apart iv s t h p q d e = d (make_nonce-injective iv s t h p q e)
