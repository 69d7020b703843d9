-- ===== src/Gost28147/Feistel.antt =====
-- Decryption undoes encryption: the rounds are involutions, run backwards with the same keys.
use libpogost.Base.{
  ℕ, zero, suc, ◌+◌, ◌-◌, ◌*◌, ◌^◌, ◌<◌, bit_and, Bool, true, false, ◌&&◌, ◌≡◌, refl, sym, ap, ◌∙◌,
  List, ◌++◌, ==_iff, ◌==◌, length, get_or, drop, Below, each_below, by_each_below, get_le32,
  put_le32, get_le32-put_le32, put_le32-get_le32, get_le32-lt, put_le32-lt, Below-append,
  Below-drop, bit_xor-cancel, bit_xor-lt, bit_or-lt, take-append-drop, take-eq_self, length-drop,
  drop-append, u32, ◌<<<◌, ◌>>>◌, arith, append-nil,
}
use libpogost.Gost28147.{
  State, Halves, sbox_entry, subst_loop, subst, key_index, round, crypt_loop, crypt, encrypt_raw,
  decrypt_raw,
}

swap : Halves → Halves
swap h = record { n1 = h.n2; n2 = h.n1 }

-- Decryption takes in round `r` the key that encryption takes in round `31 - r`, and changes
-- the other half.
abbrev mirrored : ℕ → Bool
mirrored r =
    (key_index true r == key_index false (31 - r)) && ((bit_and r 1 + bit_and (31 - r) 1) == 1)

mirrored_table : each_below mirrored 32 ≡ true
unfolding each_below key_index
mirrored_table = refl

mirror : (r : ℕ) → r < 32 → mirrored r ≡ true
mirror r h = by_each_below mirrored 32 mirrored_table r h

round_undo :
    (st : State) (i j k : ℕ) (h : Halves)
    → bit_and i 1 + bit_and j 1 ≡ 1
    → round st i k (swap (round st j k h)) ≡ swap h
unfolding round swap
round_undo st i j k h e = ground (
  arith,
  bit_xor-cancel (subst st (u32 (h.n2 + k))) h.n1,
  bit_xor-cancel (subst st (u32 (h.n1 + k))) h.n2,
)

module _ (st : State) (dec : Bool) where
  crypt_loop-suc :
      (n r : ℕ) (h : Halves)
      → crypt_loop st dec (suc n) r h
        ≡ crypt_loop st dec n (r + 1) (round st r (get_or st.key (key_index dec r) 0) h)
  unfolding crypt_loop
  crypt_loop-suc n r h = refl

  -- The last round split off.
  crypt_loop-last :
      (n r : ℕ) (h : Halves)
      → crypt_loop st dec (suc n) r h
        ≡ round st (r + n) (get_or st.key (key_index dec (r + n)) 0) (crypt_loop st dec n r h)
  unfolding crypt_loop
  crypt_loop-last zero r h =
      let e : r ≡ r + 0 = omega arith in
      ap (λ t. round st t (get_or st.key (key_index dec t) 0) h) e
  crypt_loop-last (suc n) r h =
      let e : (r + 1) + n ≡ r + suc n = omega arith in
      crypt_loop-last n (r + 1) (round st r (get_or st.key (key_index dec r) 0) h)
      ∙ ap
          (λ t.
            round st t (get_or st.key (key_index dec t) 0)
              (crypt_loop st dec n (r + 1) (round st r (get_or st.key (key_index dec r) 0) h)))
          e

both_of_and : (a b : Bool) → (a && b) ≡ true → (a ≡ true) × (b ≡ true)
both_of_and true true e = (refl, refl)
both_of_and true false e = cc
both_of_and false b e = cc

-- Round `n` of decryption undoes round `r` of encryption.
mirror_round :
    (st : State) (n r : ℕ) (h : Halves)
    → r + suc n ≡ 32
    → round st n
        (get_or st.key (key_index true n) 0)
        (swap (round st r (get_or st.key (key_index false r) 0) h))
      ≡ swap h
mirror_round st n r h e =
    let facts =
      both_of_and (key_index true n == key_index false (31 - n))
        ((bit_and n 1 + bit_and (31 - n) 1) == 1) (mirror n (omega arith)) in
    let back : 31 - n ≡ r = omega arith in
    let keys : key_index true n ≡ key_index false r = rw (← back) ((==_iff _ _).0 facts.0) in
    let parity : bit_and n 1 + bit_and r 1 ≡ 1 = rw (← back) ((==_iff _ _).0 facts.1) in
    rw keys (round_undo st n r (get_or st.key (key_index false r) 0) h parity)

crypt_loop_undo :
    (st : State) (n r : ℕ) (h : Halves)
    → r + n ≡ 32
    → crypt_loop st true n 0 (swap (crypt_loop st false n r h)) ≡ swap h
crypt_loop_undo st zero r h e = unfold crypt_loop in refl
crypt_loop_undo st (suc n) r h e =
    let k = get_or st.key (key_index false r) 0 in
    let ih = crypt_loop_undo st n (r + 1) (round st r k h) (omega arith) in
    let shape : 0 + n ≡ n = omega arith in
    ap (λ x. crypt_loop st true (suc n) 0 (swap x)) (crypt_loop-suc st false n r h)
    ∙ crypt_loop-last st true n 0 (swap (crypt_loop st false n (r + 1) (round st r k h)))
    ∙ ap
        (λ t.
          round st t (get_or st.key (key_index true t) 0)
            (crypt_loop st true n 0 (swap (crypt_loop st false n (r + 1) (round st r k h)))))
        shape
    ∙ ap (λ x. round st n (get_or st.key (key_index true n) 0) x) ih
    ∙ mirror_round st n r h e

-- The halves stay 32 bits wide.
record IsWord (h : Halves) : Type 0 where
  n1_fits : h.n1 < 2 ^ 32
  n2_fits : h.n2 < 2 ^ 32

subst_loop-lt : (st : State) (v left i x : ℕ) → x < 2 ^ 32 → subst_loop st v left i x < 2 ^ 32
unfolding subst_loop
subst_loop-lt st v zero i x h = h
subst_loop-lt st v (suc left) i x h =
    subst_loop-lt st v left (i + 1) _
      (bit_or-lt 32 x (u32 (sbox_entry st v i <<< (i * 4))) h (omega arith))

subst-lt : (st : State) (v : ℕ) → subst st v < 2 ^ 32
unfolding subst
subst-lt st v =
    let fits = subst_loop-lt st v 8 0 0 (omega arith) in
    bit_or-lt 32 (u32 (subst_loop st v 8 0 0 <<< 11)) (subst_loop st v 8 0 0 >>> 21) (omega arith)
      (omega arith)

round-IsWord : (st : State) (r k : ℕ) (h : Halves) → IsWord h → IsWord (round st r k h)
unfolding round
round-IsWord st r k h w = ground (
  arith,
  bit_xor-lt 32 h.n1 (subst st (u32 (h.n2 + k))),
  bit_xor-lt 32 h.n2 (subst st (u32 (h.n1 + k))),
  subst-lt st (u32 (h.n2 + k)),
  subst-lt st (u32 (h.n1 + k)),
)

crypt_loop-IsWord :
    (st : State) (dec : Bool) (n r : ℕ) (h : Halves) → IsWord h → IsWord (crypt_loop st dec n r h)
unfolding crypt_loop
crypt_loop-IsWord st dec zero r h w = w
crypt_loop-IsWord st dec (suc n) r h w =
    crypt_loop-IsWord st dec n (r + 1) _ (round-IsWord st r _ h w)

abbrev pub IsBlock : List ℕ → Type 0
IsBlock b = (length b ≡ 8) × Below 256 b

abbrev load : List ℕ → Halves
load b = record { n1 = get_le32 b; n2 = get_le32 (drop 4 b) }

abbrev store : Halves → List ℕ
store h = put_le32 h.n2 ++ put_le32 h.n1

load-IsWord : (b : List ℕ) → IsBlock b → IsWord (load b)
load-IsWord b h = record {
  n1_fits = get_le32-lt b (omega arith) h.1;
  n2_fits = get_le32-lt (drop 4 b) (omega (arith, length-drop 4 b)) (Below-drop 256 4 b h.1);
}

load-store : (h : Halves) → IsWord h → load (store h) ≡ swap h
unfolding swap
load-store h w = λ i. record { n1 = first i; n2 = second i }
  where
    first : get_le32 (put_le32 h.n2 ++ put_le32 h.n1) ≡ h.n2
    first = get_le32-put_le32 h.n2 (put_le32 h.n1) w.n2_fits

    second : get_le32 (drop 4 (put_le32 h.n2 ++ put_le32 h.n1)) ≡ h.n1
    second =
        ap get_le32 (
          drop-append 4 (put_le32 h.n2) (put_le32 h.n1) (unfold put_le32 in refl)
          ∙ sym (append-nil (put_le32 h.n1)))
        ∙ get_le32-put_le32 h.n1 _ w.n1_fits

store-swap-load : (b : List ℕ) → IsBlock b → store (swap (load b)) ≡ b
unfolding swap
store-swap-load b h = rw (
  put_le32-get_le32 b (omega arith) h.1,
  put_le32-get_le32 (drop 4 b) (omega (arith, length-drop 4 b)) (Below-drop 256 4 b h.1),
  take-eq_self 4 (drop 4 b) (omega (arith, length-drop 4 b)),
  take-append-drop 4 b,
)

length-crypt : (st : State) (b : List ℕ) (dec : Bool) → length (crypt st b dec) ≡ 8
unfolding crypt put_le32
length-crypt st b dec = refl

crypt-Below : (st : State) (b : List ℕ) (dec : Bool) → Below 256 (crypt st b dec)
unfolding crypt
crypt-Below st b dec = Below-append 256 (put_le32 _) (put_le32 _) (put_le32-lt _) (put_le32-lt _)

pub length-encrypt_raw : (st : State) (b : List ℕ) → length (encrypt_raw st b) ≡ 8
unfolding encrypt_raw
length-encrypt_raw st b = length-crypt st b false

-- With any key and any substitution box, decrypting an encrypted block of eight bytes gives the
-- block back.
pub decrypt_raw-encrypt_raw :
    (st : State) (b : List ℕ) → IsBlock b → decrypt_raw st (encrypt_raw st b) ≡ b
decrypt_raw-encrypt_raw st b h =
    unfold decrypt_raw encrypt_raw in
    ap (λ x. store (crypt_loop st true 32 0 x)) (load-store _ words)
    ∙ ap store (crypt_loop_undo st 32 0 (load b) refl)
    ∙ store-swap-load b h
  where
    words : IsWord (crypt_loop st false 32 0 (load b))
    words = crypt_loop-IsWord st false 32 0 (load b) (load-IsWord b h)
