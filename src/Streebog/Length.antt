-- ===== src/Streebog/Length.antt =====
-- The numbers of a state keep their eight words, and a digest has the length of its kind.
use libpogost.Base.{
  ℕ, zero, suc, ◌+◌, ◌*◌, ◌/◌, ◌≡◌, refl, sym, ap, ◌∙◌, inl, inr, List, [], ◌∷◌, ◌++◌, arith, ltb,
  ◌==◌, if◌then◌else◌, Bool-cases, length, take, drop, replicate, length-append, length-take,
  length-drop, u64, put_le32, xor_bytes, length-xor_bytes, absorb_inv,
}
use libpogost.Streebog.{
  Core, State, xlps_loop, xlps, rounds, g, add_loop, add512, words_of_bytes, bytes_of_words,
  put_le64, stage2, last_blocks, stage3, init, update, final, buffer0,
}
use libpogost.Streebog.Tables.{round_constants}
use libpogost.Streebog.Update.{IsValid, pending, update_refines}

length-xlps_loop : (n : ℕ) (rs : List ℕ) → length (xlps_loop n rs) ≡ n
unfolding xlps_loop
length-xlps_loop zero rs = refl
length-xlps_loop (suc n) rs = ap suc (length-xlps_loop n _)

length-xlps : (x y : List ℕ) → length (xlps x y) ≡ 8
unfolding xlps
length-xlps x y = length-xlps_loop 8 (xor_bytes x y)

length-rounds :
    (cs : List (List ℕ)) (ki text : List ℕ)
    → length ki ≡ 8
    → length text ≡ 8
    → (length (rounds cs ki text).0 ≡ 8) × (length (rounds cs ki text).1 ≡ 8)
unfolding rounds
length-rounds [] ki text p q = (p, q)
length-rounds (c ∷ cs) ki text p q =
    length-rounds cs (xlps ki c) (xlps (xlps ki c) text) (length-xlps ki c)
      (length-xlps (xlps ki c) text)

three_xors :
    (a b c d : List ℕ)
    → length a ≡ 8
    → length b ≡ 8
    → length c ≡ 8
    → length d ≡ 8
    → length (xor_bytes (xor_bytes (xor_bytes a b) c) d) ≡ 8
three_xors a b c d p q r s = omega (
  arith,
  length-xor_bytes (xor_bytes (xor_bytes a b) c) d,
  length-xor_bytes (xor_bytes a b) c,
  length-xor_bytes a b,
)

length-g : (h n m : List ℕ) → length h ≡ 8 → length m ≡ 8 → length (g h n m) ≡ 8
unfolding g
length-g h n m p q =
    three_xors _ _ h m (length-xlps _ _)
      (length-rounds (take 11 round_constants) (xlps h n) (xlps (xlps h n) m) (length-xlps h n)
        (length-xlps (xlps h n) m)).1
      p q

length-add_loop :
    (carry : ℕ) (xs ys : List ℕ) → length xs ≡ length ys → length (add_loop carry xs ys) ≡ length xs
unfolding add_loop
length-add_loop carry [] ys e = refl
length-add_loop carry (x ∷ xs) [] e = absurd (omega arith)
length-add_loop carry (x ∷ xs) (y ∷ ys) e = ap suc (
    length-add_loop
      (if u64 (x + y + carry) == x then carry else (if ltb (u64 (x + y + carry)) x then 1 else 0))
      xs ys (omega arith))

length-add512 : (x y : List ℕ) → length x ≡ 8 → length y ≡ 8 → length (add512 x y) ≡ 8
unfolding add512
length-add512 x y p q = length-add_loop 0 x y (p ∙ sym q) ∙ p

length-words_of_bytes : (n : ℕ) (b : List ℕ) → length (words_of_bytes n b) ≡ n
unfolding words_of_bytes
length-words_of_bytes zero b = refl
length-words_of_bytes (suc n) b = ap suc (length-words_of_bytes n (drop 8 b))

length-bytes_of_words : (ws : List ℕ) → length (bytes_of_words ws) ≡ 8 * length ws
unfolding bytes_of_words
length-bytes_of_words [] = refl
length-bytes_of_words (w ∷ ws) =
    omega (arith, length-append (put_le64 w) (bytes_of_words ws), eight, length-bytes_of_words ws)
  where
    eight : length (put_le64 w) ≡ 8
    eight = unfold put_le64 put_le32 in refl

-- The numbers of a core have eight words each.
pub record IsWhole (c : Core) : Type 0 where
  pub of_h : length c.h ≡ 8
  pub of_n : length c.n ≡ 8
  pub of_sigma : length c.sigma ≡ 8

stage2-IsWhole : (c : Core) (b : List ℕ) → IsWhole c → IsWhole (stage2 c b)
unfolding stage2
stage2-IsWhole c b w = record {
  of_h = length-g c.h c.n (words_of_bytes 8 b) w.of_h (length-words_of_bytes 8 b);
  of_n = length-add512 c.n _ w.of_n refl;
  of_sigma = length-add512 c.sigma (words_of_bytes 8 b) w.of_sigma (length-words_of_bytes 8 b);
}

pub init-IsWhole : (bits : ℕ) → IsWhole (init bits).core
unfolding init
init-IsWhole bits = elim (Bool-cases (bits / 8 == 32)) [
  | inl e ↦ rw e (record { of_h = refl; of_n = refl; of_sigma = refl })
  | inr e ↦ rw e (record { of_h = refl; of_n = refl; of_sigma = refl })
]

pub init-digest_size : (bits : ℕ) → (init bits).digest_size ≡ bits / 8
unfolding init
init-digest_size bits = refl

pub update-IsWhole :
    (st : State) (xs : List ℕ) → IsValid st → IsWhole st.core → IsWhole (update st xs).core
update-IsWhole st xs v w = rw (ap (λ (r : Core × List ℕ). r.0) (update_refines st xs v).1) (
    absorb_inv IsWhole 64 64 stage2 stage2-IsWhole (length (pending st ++ xs)) st.core
      (pending st ++ xs) w)

length-last_blocks :
    (c : Core) (bits : ℕ) (padded : List ℕ) → IsWhole c → length (last_blocks c bits padded) ≡ 8
unfolding last_blocks
length-last_blocks c bits padded w =
    let m = words_of_bytes 8 padded in
    let em = length-words_of_bytes 8 padded in
    let h1 = length-g c.h c.n m w.of_h em in
    let n1 = length-add512 c.n (bits ∷ replicate 7 0) w.of_n refl in
    length-g _ buffer0 _ (length-g _ buffer0 _ h1 n1) (length-add512 c.sigma m w.of_sigma em)

cut_length :
    (size : ℕ) (hash : List ℕ)
    → length hash ≡ 8
    → length (bytes_of_words (if size == 32 then drop 4 hash else take 8 hash))
      ≡ (if size == 32 then 32 else 64)
cut_length size hash e = elim (Bool-cases (size == 32)) [
  | inl s ↦ rw s (omega (arith, length-bytes_of_words (drop 4 hash), length-drop 4 hash))
  | inr s ↦ rw s (omega (arith, length-bytes_of_words (take 8 hash), length-take 8 hash))
]

pub length-final :
    (st : State) → IsWhole st.core → length (final st) ≡ (if st.digest_size == 32 then 32 else 64)
unfolding final stage3
length-final st w = cut_length st.digest_size _ (length-last_blocks st.core _ _ w)
