-- ===== src/Base/XorBytes.antt =====
-- Laws of the XOR of buffers.
use Prim.Native.Nat.{ℕ, zero, suc, ◌≤◌}
use mathlib.Core.Path.{◌≡◌, refl, ap₂}
use mathlib.Core.List.{List, [], ◌∷◌, ◌++◌}
use native.Mathlib.Omega.{arith}
use libpogost.Base.Lists.{length, take, replicate}
use libpogost.Base.Bits.{bit_xor_comm, bit_xor-zero}
use libpogost.Base.Xor.{bit_xor_assoc}
use libpogost.Base.Bytes.{xor_bytes}

pub xor_bytes_assoc :
    (xs ys zs : List ℕ) → xor_bytes (xor_bytes xs ys) zs ≡ xor_bytes xs (xor_bytes ys zs)
xor_bytes_assoc [] ys zs = refl
xor_bytes_assoc (x ∷ xs) [] zs = refl
xor_bytes_assoc (x ∷ xs) (y ∷ ys) [] = refl
xor_bytes_assoc (x ∷ xs) (y ∷ ys) (z ∷ zs) =
    ap₂ ◌∷◌ (bit_xor_assoc x y z) (xor_bytes_assoc xs ys zs)

pub xor_bytes_comm : (xs ys : List ℕ) → xor_bytes xs ys ≡ xor_bytes ys xs
xor_bytes_comm [] [] = refl
xor_bytes_comm [] (y ∷ ys) = refl
xor_bytes_comm (x ∷ xs) [] = refl
xor_bytes_comm (x ∷ xs) (y ∷ ys) = ap₂ ◌∷◌ (bit_xor_comm x y) (xor_bytes_comm xs ys)

pub xor_bytes-zeros : (n : ℕ) (xs : List ℕ) → length xs ≤ n → xor_bytes xs (replicate n 0) ≡ xs
xor_bytes-zeros n [] h = refl
xor_bytes-zeros zero (x ∷ xs) h = absurd (omega arith)
xor_bytes-zeros (suc n) (x ∷ xs) h = ap₂ ◌∷◌ (bit_xor-zero x) (xor_bytes-zeros n xs (omega arith))

pub xor_bytes-append :
    (xs ys us vs : List ℕ)
    → length xs ≡ length us
    → xor_bytes (xs ++ ys) (us ++ vs) ≡ xor_bytes xs us ++ xor_bytes ys vs
xor_bytes-append [] ys [] vs h = refl
xor_bytes-append [] ys (u ∷ us) vs h = absurd (omega arith)
xor_bytes-append (x ∷ xs) ys [] vs h = absurd (omega arith)
xor_bytes-append (x ∷ xs) ys (u ∷ us) vs h =
    ap₂ ◌∷◌ refl (xor_bytes-append xs ys us vs (omega arith))

pub take-xor_bytes :
    (n : ℕ) (xs ys : List ℕ) → take n (xor_bytes xs ys) ≡ xor_bytes (take n xs) (take n ys)
take-xor_bytes zero xs ys = refl
take-xor_bytes (suc n) [] ys = refl
take-xor_bytes (suc n) (x ∷ xs) [] = refl
take-xor_bytes (suc n) (x ∷ xs) (y ∷ ys) = ap₂ ◌∷◌ refl (take-xor_bytes n xs ys)
