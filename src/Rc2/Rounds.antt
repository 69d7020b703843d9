-- ===== src/Rc2/Rounds.antt =====
-- A round of RC2 is undone word by word, last word first, and so is the sequence of rounds.
use libpogost.Base.{ℕ, ◌+◌, ◌^◌, ◌<◌, bit_and, ◌≡◌, refl, ap, ap₂, ◌∙◌, List, [], ◌∷◌, arith, u32}
use libpogost.Rc2.{
  Words, low16, rotate, sub32, word, mix_word, unmix_word, mix, mash, unmix, unmash, encrypt_loop,
  decrypt_loop,
}
use libpogost.Rc2.Word.{
  low16-mod, low16-lt, rotate_undo_one, rotate_undo_two, rotate_undo_three, rotate_undo_five,
  mix_word-lt, unmix-mix_word,
}

-- The words of a block fit 16 bits.
pub record IsFit (x : Words) : Type 0 where
  pub fit0 : x.x0 < 2 ^ 16
  pub fit1 : x.x1 < 2 ^ 16
  pub fit2 : x.x2 < 2 ^ 16
  pub fit3 : x.x3 < 2 ^ 16

module _ (key : List ℕ) where
  mix-IsFit : (p : ℕ) (x : Words) → IsFit (mix key p x)
  unfolding mix
  mix-IsFit p x = record {
    fit0 = low16-lt _;
    fit1 = low16-lt _;
    fit2 = low16-lt _;
    fit3 = low16-lt _;
  }

  mash-IsFit : (x : Words) → IsFit (mash key x)
  unfolding mash
  mash-IsFit x = record {
    fit0 = low16-lt _;
    fit1 = low16-lt _;
    fit2 = low16-lt _;
    fit3 = low16-lt _;
  }

-- A word of a round restored, from the rotation and the other three words.
module _ (a b c d k : ℕ) (fits : a < 2 ^ 16) where
  abbrev mixed : ℕ
  mixed = mix_word a b c d k

  word_undo_one : unmix_word (rotate (rotate mixed 1) 15) b c d k ≡ a
  word_undo_one =
      ap (λ t. unmix_word t b c d k) (rotate_undo_one mixed (mix_word-lt a b c d k))
      ∙ unmix-mix_word a b c d k fits

  word_undo_two : unmix_word (rotate (rotate mixed 2) 14) b c d k ≡ a
  word_undo_two =
      ap (λ t. unmix_word t b c d k) (rotate_undo_two mixed (mix_word-lt a b c d k))
      ∙ unmix-mix_word a b c d k fits

  word_undo_three : unmix_word (rotate (rotate mixed 3) 13) b c d k ≡ a
  word_undo_three =
      ap (λ t. unmix_word t b c d k) (rotate_undo_three mixed (mix_word-lt a b c d k))
      ∙ unmix-mix_word a b c d k fits

  word_undo_five : unmix_word (rotate (rotate mixed 5) 11) b c d k ≡ a
  word_undo_five =
      ap (λ t. unmix_word t b c d k) (rotate_undo_five mixed (mix_word-lt a b c d k))
      ∙ unmix-mix_word a b c d k fits

pub words_eq : (x y : Words) → x.x0 ≡ y.x0 → x.x1 ≡ y.x1 → x.x2 ≡ y.x2 → x.x3 ≡ y.x3 → x ≡ y
words_eq x y e0 e1 e2 e3 = λ i. record { x0 = e0 i; x1 = e1 i; x2 = e2 i; x3 = e3 i }

module _ (key : List ℕ) where
  unmix-mix : (p : ℕ) (x : Words) → IsFit x → unmix key p (mix key p x) ≡ x
  unmix-mix p x f = words_eq (unmix key p (mix key p x)) x e0 e1 e2 e3
    where
      y : Words
      y = mix key p x

      e3 : (unmix key p y).x3 ≡ x.x3
      e3 =
          unfold mix unmix mix_word unmix_word in
          word_undo_five x.x3 y.x0 y.x1 y.x2 (word key (p + 3)) f.fit3

      e2 : (unmix key p y).x2 ≡ x.x2
      e2 =
          unfold mix unmix mix_word unmix_word in
          ap (λ t. unmix_word (rotate y.x2 13) t y.x0 y.x1 (word key (p + 2))) e3
          ∙ word_undo_three x.x2 x.x3 y.x0 y.x1 (word key (p + 2)) f.fit2

      e1 : (unmix key p y).x1 ≡ x.x1
      e1 =
          unfold mix unmix mix_word unmix_word in
          ap₂ (λ s t. unmix_word (rotate y.x1 14) s t y.x0 (word key (p + 1))) e2 e3
          ∙ word_undo_two x.x1 x.x2 x.x3 y.x0 (word key (p + 1)) f.fit1

      e0 : (unmix key p y).x0 ≡ x.x0
      e0 =
          unfold mix unmix mix_word unmix_word in
          (λ i. unmix_word (rotate y.x0 15) (e1 i) (e2 i) (e3 i) (word key p))
          ∙ word_undo_one x.x0 x.x1 x.x2 x.x3 (word key p) f.fit0

  sub_undo : (a k : ℕ) → a < 2 ^ 16 → low16 (sub32 (low16 (u32 (a + k))) k) ≡ a
  sub_undo a k h = omega (arith, low16-mod (u32 (a + k)), low16-mod (sub32 (low16 (u32 (a + k))) k))

  unmash-mash : (x : Words) → IsFit x → unmash key (mash key x) ≡ x
  unfolding mash unmash
  unmash-mash x f = words_eq (unmash key y) x e0 e1 e2 e3
    where
      y : Words
      y = mash key x

      e3 : (unmash key y).x3 ≡ x.x3
      e3 = sub_undo x.x3 (word key (bit_and y.x2 0x3f)) f.fit3

      e2 : (unmash key y).x2 ≡ x.x2
      e2 = sub_undo x.x2 (word key (bit_and y.x1 0x3f)) f.fit2

      e1 : (unmash key y).x1 ≡ x.x1
      e1 = sub_undo x.x1 (word key (bit_and y.x0 0x3f)) f.fit1

      e0 : (unmash key y).x0 ≡ x.x0
      e0 =
          ap (λ t. low16 (sub32 y.x0 (word key (bit_and t 0x3f)))) e3
          ∙ sub_undo x.x0 (word key (bit_and x.x3 0x3f)) f.fit0

-- What the counters of both loops amount to: the order of the rounds.
pub data Turn : Type 0 where
  mixing : ℕ → Turn
  mashing : Turn

abbrev pub run : List ℕ → List Turn → Words → Words
run key [] x = x
run key (mixing p ∷ ts) x = run key ts (mix key p x)
run key (mashing ∷ ts) x = run key ts (mash key x)

abbrev run_back : List ℕ → List Turn → Words → Words
run_back key [] y = y
run_back key (mixing p ∷ ts) y = unmix key p (run_back key ts y)
run_back key (mashing ∷ ts) y = unmash key (run_back key ts y)

abbrev pub schedule : List Turn
schedule =
    mixing 0
    ∷ mixing 4
    ∷ mixing 8
    ∷ mixing 12
    ∷ mixing 16
    ∷ mashing
    ∷ mixing 20
    ∷ mixing 24
    ∷ mixing 28
    ∷ mixing 32
    ∷ mixing 36
    ∷ mixing 40
    ∷ mashing
    ∷ mixing 44
    ∷ mixing 48
    ∷ mixing 52
    ∷ mixing 56
    ∷ mixing 60
    ∷ []

pub run_back-run :
    (key : List ℕ) (ts : List Turn) (x : Words) → IsFit x → run_back key ts (run key ts x) ≡ x
run_back-run key [] x f = refl
run_back-run key (mixing p ∷ ts) x f =
    ap (unmix key p) (run_back-run key ts (mix key p x) (mix-IsFit key p x)) ∙ unmix-mix key p x f
run_back-run key (mashing ∷ ts) x f =
    ap (unmash key) (run_back-run key ts (mash key x) (mash-IsFit key x)) ∙ unmash-mash key x f

pub run-IsFit : (key : List ℕ) (ts : List Turn) (x : Words) → IsFit x → IsFit (run key ts x)
run-IsFit key [] x f = f
run-IsFit key (mixing p ∷ ts) x f = run-IsFit key ts (mix key p x) (mix-IsFit key p x)
run-IsFit key (mashing ∷ ts) x f = run-IsFit key ts (mash key x) (mash-IsFit key x)

pub encrypt_loop-run : (key : List ℕ) (x : Words) → encrypt_loop key 16 0 3 5 x ≡ run key schedule x
unfolding encrypt_loop
encrypt_loop-run key x = refl

pub decrypt_loop-run_back :
    (key : List ℕ) (y : Words) → decrypt_loop key 16 60 3 5 y ≡ run_back key schedule y
unfolding decrypt_loop
decrypt_loop-run_back key y = refl
