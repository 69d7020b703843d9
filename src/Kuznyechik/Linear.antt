-- ===== src/Kuznyechik/Linear.antt =====
-- The linear map of the cipher: sixteen steps of a register with feedback, over the field of
-- Kuznyechik.Field. It is linear, and a block can be recovered from
-- its image.
use libpogost.Base.{
  ℕ, zero, suc, ◌<◌, bit_xor, ◌≡◌, refl, sym, ap, ap₂, ◌∙◌, List, [], ◌∷◌, ◌++◌, arith, length,
  take, length-append, length-take, Below, Below-append, Below-take, get_or-lt, bit_xor-left_cancel,
  byte_at, xor_bytes, length-xor_bytes, xor_bytes-Below, xor_bytes-append, take-xor_bytes,
}
use libpogost.Kuznyechik.Field.{weighted, weighted-lt, weighted-xor_bytes, weighted-last}

-- A block of 16 bytes.
abbrev pub IsBlock : List ℕ → Type 0
IsBlock b = (length b ≡ 16) × Below 256 b

pub xor-IsBlock : (a b : List ℕ) → IsBlock a → IsBlock b → IsBlock (xor_bytes a b)
xor-IsBlock a b h k = (omega (arith, length-xor_bytes a b), xor_bytes-Below 8 a b h.1 k.1)

abbrev first_15 : List ℕ
first_15 = 148 ∷ 32 ∷ 133 ∷ 16 ∷ 194 ∷ 192 ∷ 1 ∷ 251 ∷ 1 ∷ 192 ∷ 194 ∷ 16 ∷ 133 ∷ 32 ∷ 148 ∷ []

feedback : List ℕ → ℕ
feedback a = weighted (first_15 ++ (1 ∷ [])) a

step : List ℕ → List ℕ
unfolding feedback
step a = feedback a ∷ take 15 a

step_back : List ℕ → List ℕ
unfolding feedback
step_back [] = []
step_back (x ∷ a) = a ++ (feedback (a ++ (x ∷ [])) ∷ [])

steps : ℕ → List ℕ → List ℕ
unfolding step
steps zero a = a
steps (suc n) a = step (steps n a)

steps_back : ℕ → List ℕ → List ℕ
unfolding step_back
steps_back zero a = a
steps_back (suc n) a = steps_back n (step_back a)

unfoldable pub linear : List ℕ → List ℕ
unfolding steps
linear a = steps 16 a

unfoldable pub linear_inv : List ℕ → List ℕ
unfolding steps_back
linear_inv a = steps_back 16 a

feedback-lt : (a : List ℕ) → Below 256 a → feedback a < 256
unfolding feedback
feedback-lt a h = weighted-lt (first_15 ++ (1 ∷ [])) a h

feedback-xor_bytes :
    (a b : List ℕ)
    → IsBlock a
    → IsBlock b
    → feedback (xor_bytes a b) ≡ bit_xor (feedback a) (feedback b)
unfolding feedback
feedback-xor_bytes a b h k = weighted-xor_bytes (first_15 ++ (1 ∷ [])) a b (h.0 ∙ sym k.0) h.1 k.1

step-IsBlock : (a : List ℕ) → IsBlock a → IsBlock (step a)
unfolding step
step-IsBlock a h =
    (omega (arith, length-take 15 a, h.0), (feedback-lt a h.1, Below-take 256 15 a h.1))

step-xor_bytes :
    (a b : List ℕ) → IsBlock a → IsBlock b → step (xor_bytes a b) ≡ xor_bytes (step a) (step b)
unfolding step
step-xor_bytes a b h k = ap₂ ◌∷◌ (feedback-xor_bytes a b h k) (take-xor_bytes 15 a b)

step_back-IsBlock : (a : List ℕ) → IsBlock a → IsBlock (step_back a)
unfolding step_back
step_back-IsBlock [] h = absurd (omega (arith, h.0))
step_back-IsBlock (x ∷ a) h =
    let ends = Below-append 256 a (x ∷ []) h.1.1 (h.1.0, tt) in
    let last = feedback-lt (a ++ (x ∷ [])) ends in
    (
      length-append a _ ∙ omega (arith, h.0),
      Below-append 256 a (feedback (a ++ (x ∷ [])) ∷ []) h.1.1 (last, tt),
    )

step_back-xor_bytes :
    (a b : List ℕ)
    → IsBlock a
    → IsBlock b
    → step_back (xor_bytes a b) ≡ xor_bytes (step_back a) (step_back b)
unfolding step_back
step_back-xor_bytes [] b h k = absurd (omega (arith, h.0))
step_back-xor_bytes (x ∷ a) [] h k = absurd (omega (arith, k.0))
step_back-xor_bytes (x ∷ a) (y ∷ b) h k =
    let same : length a ≡ length b = omega (arith, h.0, k.0) in
    let turned = xor_bytes-append a (x ∷ []) b (y ∷ []) same in
    let p : IsBlock (a ++ (x ∷ [])) =
      (length-append a _ ∙ omega (arith, h.0), Below-append 256 a (x ∷ []) h.1.1 (h.1.0, tt)) in
    let q : IsBlock (b ++ (y ∷ [])) =
      (length-append b _ ∙ omega (arith, k.0), Below-append 256 b (y ∷ []) k.1.1 (k.1.0, tt)) in
    let last = ap feedback (sym turned) ∙ feedback-xor_bytes (a ++ (x ∷ [])) (b ++ (y ∷ [])) p q in
    ap (λ t. xor_bytes a b ++ (t ∷ [])) last
    ∙ sym
        (xor_bytes-append a (feedback (a ++ (x ∷ [])) ∷ []) b (feedback (b ++ (y ∷ [])) ∷ []) same)

-- A step keeps the first 15 bytes, and the last one can be computed again.
step_back-step : (a : List ℕ) → IsBlock a → step_back (step a) ≡ a
unfolding step step_back feedback
step_back-step a h =
    let p = take 15 a in
    let z = byte_at a 15 in
    let lp : 15 ≡ length p = omega (arith, length-take 15 a, h.0) in
    let whole : p ++ (z ∷ []) ≡ a = last_byte 15 a (omega (arith, h.0)) in
    let small : z < 256 = get_or-lt 256 15 a 0 h.1 (omega arith) in
    let w = weighted first_15 p in
    let m = weighted (first_15 ++ (1 ∷ [])) a in
    let m_is : m ≡ bit_xor w z =
      ap (λ t. weighted (first_15 ++ (1 ∷ [])) t) (sym whole)
      ∙ weighted-last first_15 p z lp small in
    let again : weighted (first_15 ++ (1 ∷ [])) (p ++ (m ∷ [])) ≡ z =
      weighted-last first_15 p m lp (feedback-lt a h.1)
      ∙ ap (λ (t : ℕ). bit_xor w t) m_is
      ∙ bit_xor-left_cancel w z in
    ap (λ t. p ++ (t ∷ [])) again ∙ whole
  where
    last_byte : (n : ℕ) (xs : List ℕ) → length xs ≡ suc n → take n xs ++ (byte_at xs n ∷ []) ≡ xs
    last_byte n [] e = absurd (omega arith)
    last_byte zero (x ∷ []) e = refl
    last_byte zero (x ∷ (y ∷ xs)) e = absurd (omega arith)
    last_byte (suc n) (x ∷ xs) e = ap (λ t. x ∷ t) (last_byte n xs (omega arith))

-- The same of `n` steps.
steps-IsBlock : (n : ℕ) (a : List ℕ) → IsBlock a → IsBlock (steps n a)
unfolding steps
steps-IsBlock zero a h = h
steps-IsBlock (suc n) a h = step-IsBlock (steps n a) (steps-IsBlock n a h)

steps-xor_bytes :
    (n : ℕ) (a b : List ℕ)
    → IsBlock a
    → IsBlock b
    → steps n (xor_bytes a b) ≡ xor_bytes (steps n a) (steps n b)
unfolding steps
steps-xor_bytes zero a b h k = refl
steps-xor_bytes (suc n) a b h k =
    ap step (steps-xor_bytes n a b h k)
    ∙ step-xor_bytes (steps n a) (steps n b) (steps-IsBlock n a h) (steps-IsBlock n b k)

steps_back-IsBlock : (n : ℕ) (a : List ℕ) → IsBlock a → IsBlock (steps_back n a)
unfolding steps_back
steps_back-IsBlock zero a h = h
steps_back-IsBlock (suc n) a h = steps_back-IsBlock n (step_back a) (step_back-IsBlock a h)

steps_back-xor_bytes :
    (n : ℕ) (a b : List ℕ)
    → IsBlock a
    → IsBlock b
    → steps_back n (xor_bytes a b) ≡ xor_bytes (steps_back n a) (steps_back n b)
unfolding steps_back
steps_back-xor_bytes zero a b h k = refl
steps_back-xor_bytes (suc n) a b h k =
    ap (λ t. steps_back n t) (step_back-xor_bytes a b h k)
    ∙ steps_back-xor_bytes n (step_back a) (step_back b) (step_back-IsBlock a h)
        (step_back-IsBlock b k)

steps_back-steps : (n : ℕ) (a : List ℕ) → IsBlock a → steps_back n (steps n a) ≡ a
unfolding steps steps_back
steps_back-steps zero a h = refl
steps_back-steps (suc n) a h =
    ap (λ t. steps_back n t) (step_back-step (steps n a) (steps-IsBlock n a h))
    ∙ steps_back-steps n a h

-- A linear map of blocks.
pub record IsLinear (f : List ℕ → List ℕ) : Type 0 where
  pub block : (a : List ℕ) → IsBlock a → IsBlock (f a)
  pub joins : (a b : List ℕ) → IsBlock a → IsBlock b → f (xor_bytes a b) ≡ xor_bytes (f a) (f b)

pub linear-IsLinear : IsLinear linear
unfolding linear
linear-IsLinear = record { block = steps-IsBlock 16; joins = steps-xor_bytes 16 }

pub linear_inv-IsLinear : IsLinear linear_inv
unfolding linear_inv
linear_inv-IsLinear = record { block = steps_back-IsBlock 16; joins = steps_back-xor_bytes 16 }

pub linear_inv-linear : (a : List ℕ) → IsBlock a → linear_inv (linear a) ≡ a
unfolding linear linear_inv
linear_inv-linear a h = steps_back-steps 16 a h
