-- ===== src/Kuznyechik/Simd/Words.antt =====
-- Eight bytes and the word that is loaded from them.
use libpogost.Base.{
  ℕ, zero, suc, ◌+◌, ◌*◌, ◌^◌, ◌≤◌, ◌<◌, bit_or, bit_xor, ◌≡◌, refl, sym, ap, ap₂, ◌∙◌, List, [],
  ◌∷◌, arith, length, take, take-eq_self, Below, Below-take, u64, ◌<<<◌, bit_xor_self,
  bit_or_disjoint, bit_xor-halves, byte_at, xor_bytes,
}
use mathlib.Core.Path.{subst}
use native.Mathlib.Nat.{mod-eq_of_lt}
use libpogost.Kuznyechik.Simd.{load_le64_loop, load_le64, store_le64_loop, store_le64}

-- The number of its bytes, the lowest first.
abbrev pub word : List ℕ → ℕ
word [] = 0
word (x ∷ xs) = word xs * 2 ^ 8 + x

pub word-xor_bytes :
    (xs ys : List ℕ)
    → length xs ≡ length ys
    → Below 256 xs
    → Below 256 ys
    → word (xor_bytes xs ys) ≡ bit_xor (word xs) (word ys)
word-xor_bytes [] [] e h k = sym (bit_xor_self 0)
word-xor_bytes [] (y ∷ ys) e h k = absurd (omega arith)
word-xor_bytes (x ∷ xs) [] e h k = absurd (omega arith)
word-xor_bytes (x ∷ xs) (y ∷ ys) e h k =
    ap (λ (t : ℕ). t * 2 ^ 8 + bit_xor x y) (word-xor_bytes xs ys (omega arith) h.1 k.1)
    ∙ sym (bit_xor-halves 8 (word xs) (word ys) x y h.0 k.0)

-- The bytes from `i` on, one at a time.
abbrev listed : ℕ → ℕ → List ℕ → List ℕ
listed zero i xs = []
listed (suc n) i xs = byte_at xs i ∷ listed n (suc i) xs

listed-shift : (n i x : ℕ) (xs : List ℕ) → listed n (suc i) (x ∷ xs) ≡ listed n i xs
listed-shift zero i x xs = refl
listed-shift (suc n) i x xs = ap (λ t. byte_at xs i ∷ t) (listed-shift n (suc i) x xs)

listed_lem : (n : ℕ) (xs : List ℕ) → n ≤ length xs → listed n 0 xs ≡ take n xs
listed_lem zero xs h = refl
listed_lem (suc n) [] h = absurd (omega arith)
listed_lem (suc n) (x ∷ xs) h =
    ap (λ t. x ∷ t) (listed-shift n 0 x xs ∙ listed_lem n xs (omega arith))

placed : (k v x : ℕ) → v < 2 ^ k → x * 2 ^ k < 2 ^ 64 → bit_or v (u64 (x <<< k)) ≡ x * 2 ^ k + v
placed k v x h f =
    ap (λ t. bit_or v t) (let e : u64 (x * 2 ^ k) ≡ x * 2 ^ k = mod-eq_of_lt f in e)
    ∙ bit_or_disjoint k x v h

loaded :
    (a b c d e f g h : ℕ)
    → Below 256 (a ∷ b ∷ c ∷ d ∷ e ∷ f ∷ g ∷ h ∷ [])
    → load_le64 (a ∷ b ∷ c ∷ d ∷ e ∷ f ∷ g ∷ h ∷ []) ≡ word (a ∷ b ∷ c ∷ d ∷ e ∷ f ∷ g ∷ h ∷ [])
unfolding load_le64 load_le64_loop
loaded a b c d e f g h w =
    let e0 : bit_or 0 (u64 (a <<< 0)) ≡ a =
      placed 0 0 a (omega arith) (omega (arith, w.0)) ∙ omega arith in
    let e1 =
      ap (λ t. bit_or t (u64 (b <<< 8))) e0
      ∙ placed 8 (a) b (omega (arith, w.0)) (omega (arith, w.1.0)) in
    let e2 =
      ap (λ t. bit_or t (u64 (c <<< 16))) e1
      ∙ placed 16 (b * 2 ^ 8 + (a)) c (omega (arith, w.0, w.1.0)) (omega (arith, w.1.1.0)) in
    let e3 =
      ap (λ t. bit_or t (u64 (d <<< 24))) e2
      ∙ placed 24 (c * 2 ^ 16 + (b * 2 ^ 8 + (a))) d (omega (arith, w.0, w.1.0, w.1.1.0))
          (omega (arith, w.1.1.1.0)) in
    let e4 =
      ap (λ t. bit_or t (u64 (e <<< 32))) e3
      ∙ placed 32 (d * 2 ^ 24 + (c * 2 ^ 16 + (b * 2 ^ 8 + (a)))) e
          (omega (arith, w.0, w.1.0, w.1.1.0, w.1.1.1.0)) (omega (arith, w.1.1.1.1.0)) in
    let e5 =
      ap (λ t. bit_or t (u64 (f <<< 40))) e4
      ∙ placed 40 (e * 2 ^ 32 + (d * 2 ^ 24 + (c * 2 ^ 16 + (b * 2 ^ 8 + (a))))) f
          (omega (arith, w.0, w.1.0, w.1.1.0, w.1.1.1.0, w.1.1.1.1.0))
          (omega (arith, w.1.1.1.1.1.0)) in
    let e6 =
      ap (λ t. bit_or t (u64 (g <<< 48))) e5
      ∙ placed 48 (f * 2 ^ 40 + (e * 2 ^ 32 + (d * 2 ^ 24 + (c * 2 ^ 16 + (b * 2 ^ 8 + (a)))))) g
          (omega (arith, w.0, w.1.0, w.1.1.0, w.1.1.1.0, w.1.1.1.1.0, w.1.1.1.1.1.0))
          (omega (arith, w.1.1.1.1.1.1.0)) in
    let e7 =
      ap (λ t. bit_or t (u64 (h <<< 56))) e6
      ∙ placed 56
          (g * 2 ^ 48
            + (f * 2 ^ 40 + (e * 2 ^ 32 + (d * 2 ^ 24 + (c * 2 ^ 16 + (b * 2 ^ 8 + (a)))))))
          h
          (omega
            (arith, w.0, w.1.0, w.1.1.0, w.1.1.1.0, w.1.1.1.1.0, w.1.1.1.1.1.0, w.1.1.1.1.1.1.0))
          (omega (arith, w.1.1.1.1.1.1.1.0)) in
    e7 ∙ omega arith

stored :
    (a b c d e f g h : ℕ)
    → Below 256 (a ∷ b ∷ c ∷ d ∷ e ∷ f ∷ g ∷ h ∷ [])
    → store_le64 (word (a ∷ b ∷ c ∷ d ∷ e ∷ f ∷ g ∷ h ∷ [])) ≡ (a ∷ b ∷ c ∷ d ∷ e ∷ f ∷ g ∷ h ∷ [])
unfolding store_le64 store_le64_loop
stored a b c d e f g h w = ap₂ ◌∷◌ (omega arith) (
    ap₂ ◌∷◌ (omega arith) (
      ap₂ ◌∷◌ (omega arith) (
        ap₂ ◌∷◌ (omega arith) (
          ap₂ ◌∷◌ (omega arith)
            (ap₂ ◌∷◌ (omega arith) (ap₂ ◌∷◌ (omega arith) (ap₂ ◌∷◌ (omega arith) (refl))))))))

-- Loading and storing, for any bytes.
pub load_le64_lem : (xs : List ℕ) → 8 ≤ length xs → Below 256 xs → load_le64 xs ≡ word (take 8 xs)
unfolding load_le64 load_le64_loop
load_le64_lem xs h w =
    let l = listed_lem 8 xs h in
    let small : Below 256 (listed 8 0 xs) = subst (Below 256) (sym l) (Below-take 256 8 xs w) in
    loaded (byte_at xs 0) (byte_at xs 1) (byte_at xs 2) (byte_at xs 3) (byte_at xs 4) (byte_at xs 5)
      (byte_at xs 6) (byte_at xs 7) small
    ∙ ap word l

pub store_le64-word : (xs : List ℕ) → length xs ≡ 8 → Below 256 xs → store_le64 (word xs) ≡ xs
store_le64-word xs e w =
    let l = listed_lem 8 xs (omega arith) ∙ take-eq_self 8 xs (omega arith) in
    let small : Below 256 (listed 8 0 xs) = subst (Below 256) (sym l) w in
    ap (λ t. store_le64 (word t)) (sym l)
    ∙ stored (byte_at xs 0) (byte_at xs 1) (byte_at xs 2) (byte_at xs 3) (byte_at xs 4)
        (byte_at xs 5) (byte_at xs 6) (byte_at xs 7) small
    ∙ l
