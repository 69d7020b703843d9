-- ===== src/Gost28147/Modes/Imit.antt =====
-- The authentication code over whole blocks.
use libpogost.Base.{
  ℕ, zero, suc, ◌*◌, ◌%◌, ◌≤◌, ◌<◌, ◌≡◌, refl, ◌⊎◌, inl, inr, true, false, some, List, arith, leb,
  ◌==◌, Bool-cases, length, take, drop, length-take, length-drop, put_le32, bytes,
}
use libpogost.Gost28147.{State}
use libpogost.Gost28147.Modes.{imit_block, imit_blocks, mac4_raw}

module _ (st : State) where
  length-imit_block : (mac block : List ℕ) → length (imit_block st mac block) ≡ 8
  unfolding imit_block put_le32
  length-imit_block mac block = refl

  -- The code has eight bytes as soon as one block went in.
  length-imit_blocks :
      (fuel : ℕ) (mac rest : List ℕ)
      → (length mac ≡ 8) ⊎ (8 ≤ length rest)
      → length rest ≤ fuel
      → length (imit_blocks st fuel mac rest).0 ≡ 8
  unfolding imit_blocks
  length-imit_blocks zero mac rest (inl e) fit = e
  length-imit_blocks zero mac rest (inr h) fit = absurd (omega arith)
  length-imit_blocks (suc fuel) mac rest h fit = elim (Bool-cases (leb 8 (length rest))) [
    | inl e ↦
        let block = inl (length-imit_block mac (take 8 rest)) in
        rw e (
          length-imit_blocks fuel (imit_block st mac (take 8 rest)) (drop 8 rest) block
            (ground (arith, length-drop 8 rest)))
    | inr e ↦ rw e (ground (arith, h))
  ]

  -- A positive number of whole blocks has a code, of four bytes.
  pub mac4_raw-total :
      (iv xs : List ℕ) (k : ℕ)
      → length xs ≡ 8 * k
      → 0 < k
      → (mac : List ℕ) × (mac4_raw (some st) true (some iv) (bytes xs) ≡ some mac)
        × (length mac ≡ 4)
  unfolding mac4_raw
  mac4_raw-total iv xs k h pos =
      let a : (length xs == 0) ≡ false = ground arith in
      let b : (length xs % 8 == 0) ≡ true = ground arith in
      let l = length-imit_blocks (length xs) (take 8 iv) xs (inr (omega arith)) (omega arith) in
      rw (a, b)
        (_, refl, omega (arith, l, length-take 4 (imit_blocks st (length xs) (take 8 iv) xs).0))
