-- ===== src/Rc2/Word.antt =====
-- One word of a round of RC2: rotations and the mixing of a word are undone.
use libpogost.Base.{
  ℕ, ◌+◌, ◌-◌, ◌*◌, ◌/◌, ◌%◌, ◌^◌, ◌<◌, bit_and, bit_or, ◌≡◌, ap, ◌∙◌, arith, u32, ◌>>>◌, not32,
  bit_or_disjoint, bit_and_mask, bit_or_comm,
}
use libpogost.Rc2.{low16, rotate, sub32, mix_word, unmix_word}

pub low16-mod : (x : ℕ) → low16 x ≡ x % 2 ^ 16
low16-mod x =
    ap (λ t. bit_and t 0xffff) (let e : x ≡ x / 2 ^ 16 * 2 ^ 16 + x % 2 ^ 16 = omega arith in e)
    ∙ bit_and_mask 16 (x / 2 ^ 16) (x % 2 ^ 16) (omega arith)

pub low16-lt : (x : ℕ) → low16 x < 2 ^ 16
low16-lt x = omega (arith, low16-mod x)

-- The rotation in arithmetic, at the distances that the rounds use.
rotate_as_sum :
    (t s : ℕ)
    → u32 (t * 2 ^ s) ≡ t * 2 ^ s
    → t / 2 ^ (16 - s) < 2 ^ s
    → rotate t s ≡ (t * 2 ^ s + t / 2 ^ (16 - s)) % 2 ^ 16
rotate_as_sum t s whole fits =
    low16-mod _
    ∙ ap (λ x. x % 2 ^ 16)
        (ap (λ x. bit_or x (t >>> (16 - s))) whole
          ∙ bit_or_comm (t * 2 ^ s) (t / 2 ^ (16 - s))
          ∙ bit_or_disjoint s t (t / 2 ^ (16 - s)) fits)

pub rotate_undo_one : (t : ℕ) → t < 2 ^ 16 → rotate (rotate t 1) 15 ≡ t
rotate_undo_one t h =
    let e = rotate_as_sum t 1 (omega arith) (omega arith) in
    let r = (t * 2 ^ 1 + t / 2 ^ 15) % 2 ^ 16 in
    ap (λ x. rotate x 15) e
    ∙ rotate_as_sum r 15 (omega arith) (omega arith)
    ∙ (let f : (r * 2 ^ 15 + r / 2 ^ 1) % 2 ^ 16 ≡ t = omega arith in f)

pub rotate_undo_two : (t : ℕ) → t < 2 ^ 16 → rotate (rotate t 2) 14 ≡ t
rotate_undo_two t h =
    let e = rotate_as_sum t 2 (omega arith) (omega arith) in
    let r = (t * 2 ^ 2 + t / 2 ^ 14) % 2 ^ 16 in
    ap (λ x. rotate x 14) e
    ∙ rotate_as_sum r 14 (omega arith) (omega arith)
    ∙ (let f : (r * 2 ^ 14 + r / 2 ^ 2) % 2 ^ 16 ≡ t = omega arith in f)

pub rotate_undo_three : (t : ℕ) → t < 2 ^ 16 → rotate (rotate t 3) 13 ≡ t
rotate_undo_three t h =
    let e = rotate_as_sum t 3 (omega arith) (omega arith) in
    let r = (t * 2 ^ 3 + t / 2 ^ 13) % 2 ^ 16 in
    ap (λ x. rotate x 13) e
    ∙ rotate_as_sum r 13 (omega arith) (omega arith)
    ∙ (let f : (r * 2 ^ 13 + r / 2 ^ 3) % 2 ^ 16 ≡ t = omega arith in f)

pub rotate_undo_five : (t : ℕ) → t < 2 ^ 16 → rotate (rotate t 5) 11 ≡ t
rotate_undo_five t h =
    let e = rotate_as_sum t 5 (omega arith) (omega arith) in
    let r = (t * 2 ^ 5 + t / 2 ^ 11) % 2 ^ 16 in
    ap (λ x. rotate x 11) e
    ∙ rotate_as_sum r 11 (omega arith) (omega arith)
    ∙ (let f : (r * 2 ^ 11 + r / 2 ^ 5) % 2 ^ 16 ≡ t = omega arith in f)

pub mix_word-lt : (a b c d k : ℕ) → mix_word a b c d k < 2 ^ 16
unfolding mix_word
mix_word-lt a b c d k = low16-lt _

pub unmix-mix_word : (a b c d k : ℕ) → a < 2 ^ 16 → unmix_word (mix_word a b c d k) b c d k ≡ a
unfolding mix_word unmix_word
unmix-mix_word a b c d k h = omega (
  arith,
  low16-mod (u32 (a + bit_and b (not32 d) + bit_and c d + k)),
  low16-mod (
      sub32
        (sub32
          (sub32 (low16 (u32 (a + bit_and b (not32 d) + bit_and c d + k))) (bit_and b (not32 d)))
          (bit_and c d))
        k),
)
