-- ===== src/Gost3410/Words.antt =====
-- Words of a number as bytes, read again.
use libpogost.Base.{
  ℕ, zero, suc, ◌+◌, ◌*◌, ◌/◌, ◌^◌, ◌<◌, ◌≡◌, refl, ap, ◌∙◌, List, [], ◌∷◌, ◌++◌, arith, length,
  length-append, Below, u64, ◌>>>◌,
}
use mathlib.Core.List.{reverse, reverse-reverse, reverse-cons}
use native.Mathlib.Nat.{pow-suc}
use libpogost.Kdf.{put_le64}
use libpogost.Gost3410.{Curve, Ecc, le_value, vli_to_le, vli_to_be}

le_value-put_le64 :
    (w : ℕ) (rest : List ℕ)
    → w < 2 ^ 64
    → le_value (put_le64 w ++ rest) ≡ w + 2 ^ 64 * le_value rest
unfolding le_value put_le64
le_value-put_le64 w rest h = omega arith

pub le_value-vli_to_le : (digits v : ℕ) → v < (2 ^ 64) ^ digits → le_value (vli_to_le digits v) ≡ v
unfolding vli_to_le le_value
le_value-vli_to_le zero v h = omega arith
le_value-vli_to_le (suc digits) v h =
    let p = pow-suc (2 ^ 64) digits in
    let small : v / 2 ^ 64 < (2 ^ 64) ^ digits = omega (arith, p) in
    let ih = le_value-vli_to_le digits (v / 2 ^ 64) small in
    le_value-put_le64 (u64 v) (vli_to_le digits (v / 2 ^ 64)) (omega arith) ∙ omega (arith, ih)

pub length-vli_to_le : (digits v : ℕ) → length (vli_to_le digits v) ≡ 8 * digits
unfolding vli_to_le put_le64
length-vli_to_le zero v = refl
length-vli_to_le (suc digits) v =
    length-append (put_le64 (u64 v)) (vli_to_le digits (v >>> 64))
    ∙ omega (arith, length-vli_to_le digits (v >>> 64))

length-reversed : (xs : List ℕ) → length (reverse xs) ≡ length xs
length-reversed [] = refl
length-reversed (x ∷ xs) =
    ap length (reverse-cons x xs)
    ∙ length-append (reverse xs) (x ∷ [])
    ∙ omega (arith, length-reversed xs)

pub length-vli_to_be : (digits v : ℕ) → length (vli_to_be digits v) ≡ 8 * digits
unfolding vli_to_be
length-vli_to_be digits v = length-reversed (vli_to_le digits v) ∙ length-vli_to_le digits v

le_value-lt :
    (digits : ℕ) (xs : List ℕ) → length xs ≡ digits → Below 256 xs → le_value xs < 256 ^ digits
unfolding le_value
le_value-lt zero [] h fits = omega arith
le_value-lt zero (x ∷ xs) h fits = absurd (omega arith)
le_value-lt (suc digits) [] h fits = absurd (omega arith)
le_value-lt (suc digits) (x ∷ xs) h fits =
    omega (arith, fits.0, le_value-lt digits xs (omega arith) fits.1, pow-suc 256 digits)

pow_words : (digits : ℕ) → 256 ^ (8 * digits) ≡ (2 ^ 64) ^ digits
pow_words zero = refl
pow_words (suc d) =
    let n = 8 * d in
    let e : 8 * suc d ≡ suc (suc (suc (suc (suc (suc (suc (suc n))))))) = omega arith in
    ap (λ (k : ℕ). 256 ^ k) e
    ∙ omega (
      arith,
      pow_words d,
      pow-suc (2 ^ 64) d,
      pow-suc 256 n,
      pow-suc 256 (suc n),
      pow-suc 256 (suc (suc n)),
      pow-suc 256 (suc (suc (suc n))),
      pow-suc 256 (suc (suc (suc (suc n)))),
      pow-suc 256 (suc (suc (suc (suc (suc n))))),
      pow-suc 256 (suc (suc (suc (suc (suc (suc n)))))),
      pow-suc 256 (suc (suc (suc (suc (suc (suc (suc n))))))),
    )

pub le_value-words :
    (digits : ℕ) (xs : List ℕ)
    → length xs ≡ 8 * digits
    → Below 256 xs
    → le_value xs < (2 ^ 64) ^ digits
le_value-words digits xs h fits =
    omega (arith, le_value-lt (8 * digits) xs h fits, pow_words digits)

module _ (c : Curve) (E : Ecc c) where
  pub from_le-vli_to_le : (v : ℕ) → v < (2 ^ 64) ^ c.digits → E.from_le (vli_to_le c.digits v) ≡ v
  from_le-vli_to_le v h =
      E.from_le_lem (vli_to_le c.digits v) (length-vli_to_le c.digits v)
      ∙ le_value-vli_to_le c.digits v h

  pub from_be-vli_to_be : (v : ℕ) → v < (2 ^ 64) ^ c.digits → E.from_be (vli_to_be c.digits v) ≡ v
  unfolding vli_to_be
  from_be-vli_to_be v h =
      E.from_be_lem (vli_to_be c.digits v) (length-vli_to_be c.digits v)
      ∙ ap le_value (reverse-reverse (vli_to_le c.digits v))
      ∙ le_value-vli_to_le c.digits v h
