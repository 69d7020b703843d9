-- ===== src/Base/Blocks.antt =====
-- Input cut into blocks: the loop `while (len >= limit)` that takes `block` bytes a round.
-- Hashing and authentication read their input through it.
use Prim.Native.Nat.{ℕ, zero, suc, ◌≤◌, ◌<◌}
use mathlib.Core.Path.{◌≡◌, refl, sym, ap, ap₂, ◌∙◌}
use mathlib.Core.Logic.{inl, inr}
use mathlib.Core.Bool.{true, false}
use mathlib.Core.List.{List, ◌++◌}
use native.Mathlib.Omega.{arith}
use libpogost.Base.Tests.{leb, if◌then◌else◌, Bool-cases}
use libpogost.Base.Lists.{
  length, take, drop, length-append, length-drop, take-append_le, drop-append_le, take-append,
  drop-append,
}

module _ {ℓ} {S : Type ℓ} (block limit : ℕ) (step : S → List ℕ → S) where
  -- The state after the loop, and the input that it leaves.
  unfoldable pub absorb : ℕ → S → List ℕ → S × List ℕ
  absorb zero s xs = (s, xs)
  absorb (suc fuel) s xs =
      let later = absorb fuel (step s (take block xs)) (drop block xs) in
      if leb limit (length xs) then later else (s, xs)

  pub absorb-short :
      (fuel : ℕ) (s : S) (xs : List ℕ) → length xs < limit → absorb fuel s xs ≡ (s, xs)
  unfolding absorb
  absorb-short zero s xs h = refl
  absorb-short (suc fuel) s xs h = let e : leb limit (length xs) ≡ false = ground arith in rw e

  pub absorb-long :
      (fuel : ℕ) (s : S) (xs : List ℕ)
      → limit ≤ length xs
      → absorb (suc fuel) s xs ≡ absorb fuel (step s (take block xs)) (drop block xs)
  unfolding absorb
  absorb-long fuel s xs h = let e : leb limit (length xs) ≡ true = ground arith in rw e

module _ {ℓ} {S : Type ℓ} (block limit : ℕ) (step : S → List ℕ → S) (pos : 0 < block)
    (fits : block ≤ limit) where
  -- Any fuel from the length of the input on gives the same result.
  pub absorb_enough :
      (n m : ℕ) (s : S) (xs : List ℕ)
      → length xs ≤ n
      → length xs ≤ m
      → absorb block limit step n s xs ≡ absorb block limit step m s xs
  absorb_enough zero m s xs h k = sym (
      absorb-short block limit step m s xs (omega arith)
      ∙ sym (absorb-short block limit step zero s xs (omega arith)))
  absorb_enough (suc n) zero s xs h k =
      absorb-short block limit step (suc n) s xs (omega arith)
      ∙ sym (absorb-short block limit step zero s xs (omega arith))
  absorb_enough (suc n) (suc m) s xs h k = elim (Bool-cases (leb limit (length xs))) [
    | inl e ↦
        absorb-long block limit step n s xs (ground arith)
        ∙ absorb_enough n m (step s (take block xs)) (drop block xs)
            (ground (arith, length-drop block xs)) (ground (arith, length-drop block xs))
        ∙ sym (absorb-long block limit step m s xs (ground arith))
    | inr e ↦
        absorb-short block limit step (suc n) s xs (ground arith)
        ∙ sym (absorb-short block limit step (suc m) s xs (ground arith))
  ]

  absorb-le : (n : ℕ) (s : S) (xs : List ℕ) → length (absorb block limit step n s xs).1 ≤ length xs
  absorb-le zero s xs = unfold absorb in omega arith
  absorb-le (suc n) s xs = elim (Bool-cases (leb limit (length xs))) [
    | inl e ↦
        rw (absorb-long block limit step n s xs (ground arith)) (
          omega (arith, absorb-le n (step s (take block xs)) (drop block xs), length-drop block xs))
    | inr e ↦ rw (absorb-short block limit step (suc n) s xs (ground arith)) (omega arith)
  ]

  -- One round before the input grows by `ys` is one round after.
  absorb-long_append :
      (n : ℕ) (s : S) (xs ys : List ℕ)
      → limit ≤ length xs
      → absorb block limit step (suc n) s (xs ++ ys)
        ≡ absorb block limit step n (step s (take block xs)) (drop block xs ++ ys)
  absorb-long_append n s xs ys h =
      absorb-long block limit step n s (xs ++ ys) (omega (arith, length-append xs ys))
      ∙ ap₂ (λ b r. absorb block limit step n (step s b) r)
          (take-append_le block xs ys (omega arith)) (drop-append_le block xs ys (omega arith))

  room :
      (n : ℕ) (s : S) (xs ys : List ℕ)
      → limit ≤ length xs
      → length (xs ++ ys) ≤ suc n
      → length ((absorb block limit step n (step s (take block xs)) (drop block xs)).1 ++ ys) ≤ n
  room n s xs ys long h = omega (
    arith,
    length-append xs ys,
    length-append (absorb block limit step n (step s (take block xs)) (drop block xs)).1 ys,
    absorb-le n (step s (take block xs)) (drop block xs),
    length-drop block xs,
  )

  -- Two pieces of input one after the other, what the first leaves before the second.
  pub absorb-append :
      (n : ℕ) (s : S) (xs ys : List ℕ)
      → length (xs ++ ys) ≤ n
      → absorb block limit step n s (xs ++ ys)
        ≡ (let r = absorb block limit step n s xs in absorb block limit step n r.0 (r.1 ++ ys))
  absorb-append zero s xs ys h = unfold absorb in refl
  absorb-append (suc n) s xs ys h = elim (Bool-cases (leb limit (length xs))) [
    | inl e ↦
        let long : limit ≤ length xs = ground arith in
        let s' = step s (take block xs) in
        let r = absorb block limit step n s' (drop block xs) in
        absorb-long_append n s xs ys long
        ∙ absorb-append n s' (drop block xs) ys (
            omega
              (arith, length-append xs ys, length-append (drop block xs) ys, length-drop block xs))
        ∙ absorb_enough n (suc n) r.0 (r.1 ++ ys) (room n s xs ys long h)
            (omega (arith, room n s xs ys long h))
        ∙ ap (λ q. absorb block limit step (suc n) q.0 (q.1 ++ ys))
            (sym (absorb-long block limit step n s xs long))
    | inr e ↦
        let short = absorb-short block limit step (suc n) s xs (ground arith) in
        ap (λ r. absorb block limit step (suc n) r.0 (r.1 ++ ys)) (sym short)
  ]

  pub length-absorb :
      (n : ℕ) (s : S) (xs : List ℕ)
      → length xs ≤ n
      → length (absorb block limit step n s xs).1 < limit
  length-absorb zero s xs h = unfold absorb in omega arith
  length-absorb (suc n) s xs h = elim (Bool-cases (leb limit (length xs))) [
    | inl e ↦ rw (absorb-long block limit step n s xs (ground arith)) (
        length-absorb n (step s (take block xs)) (drop block xs)
          (ground (arith, length-drop block xs)))
    | inr e ↦ rw (absorb-short block limit step (suc n) s xs (ground arith)) (ground arith)
  ]

  -- The loop with the length of its input as fuel.
  abbrev pub absorb_all : S → List ℕ → S × List ℕ
  absorb_all s xs = absorb block limit step (length xs) s xs

  pub absorb_all-append :
      (s : S) (xs ys : List ℕ)
      → absorb_all s (xs ++ ys) ≡ (let r = absorb_all s xs in absorb_all r.0 (r.1 ++ ys))
  absorb_all-append s xs ys =
      let n = length (xs ++ ys) in
      let e = absorb_enough n (length xs) s xs (omega (arith, length-append xs ys)) (omega arith) in
      absorb-append n s xs ys (omega arith)
      ∙ ap (λ r. absorb block limit step n r.0 (r.1 ++ ys)) e
      ∙ absorb_enough n _ _ _
          (omega (
            arith,
            length-append xs ys,
            length-append (absorb_all s xs).1 ys,
            absorb-le (length xs) s xs,
          ))
          (omega arith)

  -- A first block, where a block is processed as soon as it is full.
  pub absorb_all-block :
      (s : S) (b ys : List ℕ)
      → block ≡ length b
      → limit ≡ block
      → absorb_all s (b ++ ys) ≡ absorb_all (step s b) ys
  absorb_all-block s b ys e l =
      let n = length (b ++ ys) in
      absorb_enough n (suc n) s (b ++ ys) (omega arith) (omega arith)
      ∙ absorb-long block limit step n s (b ++ ys) (omega (arith, length-append b ys))
      ∙ ap₂ (λ x r. absorb block limit step n (step s x) r) (take-append block b ys e)
          (drop-append block b ys e)
      ∙ absorb_enough n (length ys) (step s b) ys (omega (arith, length-append b ys)) (omega arith)

-- What a step keeps, the loop keeps.
pub absorb_inv {ℓ κ} :
    {S : Type ℓ} (P : S → Type κ) (block limit : ℕ) (step : S → List ℕ → S)
    → ((s : S) (b : List ℕ) → P s → P (step s b))
    → (n : ℕ) (s : S) (xs : List ℕ) → P s
    → P (absorb block limit step n s xs).0
absorb_inv P block limit step keep zero s xs h = unfold absorb in h
absorb_inv P block limit step keep (suc n) s xs h = elim (Bool-cases (leb limit (length xs))) [
  | inl e ↦ rw (absorb-long block limit step n s xs (ground arith)) (
      absorb_inv P block limit step keep n (step s (take block xs)) (drop block xs)
        (keep s (take block xs) h))
  | inr e ↦ rw (absorb-short block limit step (suc n) s xs (ground arith)) h
]
