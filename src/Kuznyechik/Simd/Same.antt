-- ===== src/Kuznyechik/Simd/Same.antt =====
-- The backend for x86-64 makes the same key state as the generic code.
use libpogost.Base.{
  ℕ, zero, suc, ◌+◌, ◌≤◌, ◌<◌, bit_xor, ◌≡◌, refl, sym, ap, ap₂, ◌∙◌, Bool, true, false, Option,
  none, some, List, [], ◌∷◌, ◌++◌, arith, length, take, drop, replicate, length-take, length-drop,
  take-append-drop, take-eq_self, Below, Below-take, Below-drop, Below-replicate, xor_bytes,
  xor_bytes_comm, xor_bytes-zeros, take-xor_bytes,
}
use libpogost.Kuznyechik.{
  Tables, pi, part, join_rows, joined, linv_transform, lsx_transform, dekey_loop, subkey,
  expand_key, generic_setkey,
}
use libpogost.Kuznyechik.Linear.{IsBlock, xor-IsBlock, linear-IsLinear, linear_inv-IsLinear}
use libpogost.Kuznyechik.Rounds.{IsTables, unit, unit-IsBlock, pi_lem}
use libpogost.Kuznyechik.Schedule.{
  constant-IsBlock, IsKey, part-IsBlock, append-IsKey, round-IsBlock, subkey-IsKey,
}
use libpogost.Kuznyechik.Simd.{
  load_le64, store_le64, kuz_l_loop, kuz_l, kuz_lsx, kuz_subkey, kuz_dekey_loop, kuz_expand_key,
  simd_setkey,
}
use libpogost.Kuznyechik.Simd.Words.{word, word-xor_bytes, load_le64_lem, store_le64-word}

drop-xor_bytes :
    (n : ℕ) (xs ys : List ℕ) → drop n (xor_bytes xs ys) ≡ xor_bytes (drop n xs) (drop n ys)
drop-xor_bytes zero xs ys = refl
drop-xor_bytes (suc n) [] ys = refl
drop-xor_bytes (suc n) (x ∷ xs) [] = sym (no_bytes (drop n xs))
  where
    no_bytes : (xs : List ℕ) → xor_bytes xs [] ≡ []
    no_bytes [] = refl
    no_bytes (x ∷ xs) = refl
drop-xor_bytes (suc n) (x ∷ xs) (y ∷ ys) = drop-xor_bytes n xs ys

-- The two halves of a block.
first-half : (b : List ℕ) → IsBlock b → (length (take 8 b) ≡ 8) × Below 256 (take 8 b)
first-half b h = (omega (arith, length-take 8 b, h.0), Below-take 256 8 b h.1)

last-half : (b : List ℕ) → IsBlock b → (length (drop 8 b) ≡ 8) × Below 256 (drop 8 b)
last-half b h = (omega (arith, length-drop 8 b, h.0), Below-drop 256 8 b h.1)

module _ (tab : ℕ → ℕ → List ℕ) (row : (i x : ℕ) → i < 16 → x < 256 → IsBlock (tab i x)) where
  kuz_l_loop_lem :
      (i : ℕ) (t b : List ℕ)
      → i + length b ≤ 16
      → IsBlock t
      → Below 256 b
      → let r = join_rows tab i t b in
        (IsBlock r)
        × (kuz_l_loop tab i b (word (take 8 t)) (word (drop 8 t))
            ≡ (word (take 8 r), word (drop 8 r)))
  unfolding kuz_l_loop join_rows
  kuz_l_loop_lem i t [] e h k = (h, refl)
  kuz_l_loop_lem i t (x ∷ b) e h k =
      let p = tab i x in
      let g = row i x (omega arith) k.0 in
      let t1 = first-half t h in
      let t2 = last-half t h in
      let p1 = first-half p g in
      let p2 = last-half p g in
      let lo : bit_xor (word (take 8 t)) (load_le64 p) ≡ word (take 8 (xor_bytes t p)) =
        ap (λ s. bit_xor (word (take 8 t)) s) (load_le64_lem p (omega (arith, g.0)) g.1)
        ∙ sym (word-xor_bytes (take 8 t) (take 8 p) (t1.0 ∙ sym p1.0) t1.1 p1.1)
        ∙ ap word (sym (take-xor_bytes 8 t p)) in
      let hi : bit_xor (word (drop 8 t)) (load_le64 (drop 8 p)) ≡ word (drop 8 (xor_bytes t p)) =
        ap (λ s. bit_xor (word (drop 8 t)) s)
          (load_le64_lem (drop 8 p) (omega (arith, p2.0)) p2.1
            ∙ ap word (take-eq_self 8 (drop 8 p) (omega (arith, p2.0))))
        ∙ sym (word-xor_bytes (drop 8 t) (drop 8 p) (t2.0 ∙ sym p2.0) t2.1 p2.1)
        ∙ ap word (sym (drop-xor_bytes 8 t p)) in
      let ih = kuz_l_loop_lem (i + 1) (xor_bytes t p) b (omega arith) (xor-IsBlock t p h g) k.1 in
      (ih.0, ap₂ (λ (s u : ℕ). kuz_l_loop tab (i + 1) b s u) lo hi ∙ ih.1)

  kuz_l-joined : (b : List ℕ) → IsBlock b → kuz_l tab b ≡ joined tab b
  unfolding kuz_l joined
  kuz_l-joined [] h = absurd (omega (arith, h.0))
  kuz_l-joined (x ∷ b) h =
      let zeros : IsBlock (replicate 16 0) = (refl, Below-replicate 256 16 0 (omega arith)) in
      let whole = take-eq_self 16 (x ∷ b) (omega (arith, h.0)) in
      let l = kuz_l_loop_lem 0 (replicate 16 0) (x ∷ b) (omega (arith, h.0)) zeros h.1 in
      let r = join_rows tab 0 (replicate 16 0) (x ∷ b) in
      let r1 = first-half r l.0 in
      let r2 = last-half r l.0 in
      let g = row 0 x (omega arith) h.1.0 in
      let first : xor_bytes (replicate 16 0) (tab 0 x) ≡ tab 0 x =
        xor_bytes_comm (replicate 16 0) (tab 0 x)
        ∙ xor_bytes-zeros 16 (tab 0 x) (omega (arith, g.0)) in
      ap (λ s. let q = kuz_l_loop tab 0 s 0 0 in store_le64 q.0 ++ store_le64 q.1) whole
      ∙ ap (λ (q : ℕ × ℕ). store_le64 q.0 ++ store_le64 q.1) l.1
      ∙ ap₂ (λ s u. s ++ u) (store_le64-word (take 8 r) r1.0 r1.1)
          (store_le64-word (drop 8 r) r2.0 r2.1)
      ∙ take-append-drop 8 r
      ∙ let d : r ≡ join_rows tab 1 (tab 0 x) b =
          unfold join_rows in ap (λ s. join_rows tab 1 s b) first in
        d ∙ ap (λ s. join_rows tab 1 (tab 0 x) s) (sym (take-eq_self 15 b (omega (arith, h.0))))

module _ (T : Tables) (w : IsTables T) where
  table-IsBlock : (i x : ℕ) → i < 16 → x < 256 → IsBlock (T.table i x)
  table-IsBlock i x h k =
      rw (w.rows i x h k)
        (linear-IsLinear.block (unit i (pi x)) (unit-IsBlock i (pi x) h (pi_lem x k).0))

  table_inv-IsBlock : (i x : ℕ) → i < 16 → x < 256 → IsBlock (T.table_inv i x)
  table_inv-IsBlock i x h k =
      rw (w.rows_inv i x h k) (linear_inv-IsLinear.block (unit i x) (unit-IsBlock i x h k))

  kuz_lsx_lem : (b c : List ℕ) → IsBlock b → IsBlock c → kuz_lsx T b c ≡ lsx_transform T b c
  unfolding kuz_lsx lsx_transform
  kuz_lsx_lem b c h k = kuz_l-joined T.table table-IsBlock (xor_bytes b c) (xor-IsBlock b c h k)

  kuz_subkey_lem :
      (key : List ℕ) (i : ℕ) → IsKey 2 key → i ≤ 24 → kuz_subkey T key i ≡ subkey T key i
  unfolding kuz_subkey subkey
  kuz_subkey_lem key i h p =
      let c = (λ (j : ℕ) (q : j < 32). constant-IsBlock j q) in
      let k0 = part-IsBlock 2 key 0 h (omega arith) in
      let k1 = part-IsBlock 2 key 1 h (omega arith) in
      let b1 = (round-IsBlock T w (part key 0) (part key 1) (i + 0) k0 k1 (omega arith)).0 in
      let a1 = (round-IsBlock T w _ (part key 0) (i + 1) b1 k0 (omega arith)).0 in
      let b2 = (round-IsBlock T w _ _ (i + 2) a1 b1 (omega arith)).1 in
      let a2 = (round-IsBlock T w _ _ (i + 3) b2 a1 (omega arith)).1 in
      let b3 = (round-IsBlock T w _ _ (i + 4) a2 b2 (omega arith)).1 in
      let a3 = (round-IsBlock T w _ _ (i + 5) b3 a2 (omega arith)).1 in
      let b4 = (round-IsBlock T w _ _ (i + 6) a3 b3 (omega arith)).1 in
      rw
        (
          kuz_lsx_lem _ _ k0 (c (i + 0) (omega arith)),
          kuz_lsx_lem _ _ b1 (c (i + 1) (omega arith)),
          kuz_lsx_lem _ _ a1 (c (i + 2) (omega arith)),
          kuz_lsx_lem _ _ b2 (c (i + 3) (omega arith)),
          kuz_lsx_lem _ _ a2 (c (i + 4) (omega arith)),
          kuz_lsx_lem _ _ b3 (c (i + 5) (omega arith)),
          kuz_lsx_lem _ _ a3 (c (i + 6) (omega arith)),
          kuz_lsx_lem _ _ b4 (c (i + 7) (omega arith)),
        )
        refl

  kuz_dekey_loop_lem :
      (left i : ℕ) (key : List ℕ)
      → IsKey 10 key
      → left + i ≤ 10
      → kuz_dekey_loop T left i key ≡ dekey_loop T left i key
  unfolding kuz_dekey_loop dekey_loop linv_transform
  kuz_dekey_loop_lem zero i key h p = refl
  kuz_dekey_loop_lem (suc left) i key h p =
      ap₂ (λ s t. s ++ t)
        (kuz_l-joined T.table_inv table_inv-IsBlock (part key i)
          (part-IsBlock 10 key i h (omega arith)))
        (kuz_dekey_loop_lem left (i + 1) key h (omega arith))

  kuz_expand_key_lem :
      (key : List ℕ) → IsKey 2 key → kuz_expand_key T true (some key) ≡ some (expand_key T key)
  unfolding kuz_expand_key expand_key
  kuz_expand_key_lem key h =
      let k0 : IsKey 2 (take 32 key) =
        (omega (arith, length-take 32 key, h.0), Below-take 256 32 key h.1) in
      let k1 = subkey-IsKey T w (take 32 key) 0 k0 (omega arith) in
      let k2 = subkey-IsKey T w _ 8 k1 (omega arith) in
      let k3 = subkey-IsKey T w _ 16 k2 (omega arith) in
      let k4 = subkey-IsKey T w _ 24 k3 (omega arith) in
      let all =
        append-IsKey 2 8 _ _ k0
          (append-IsKey 2 6 _ _ k1 (append-IsKey 2 4 _ _ k2 (append-IsKey 2 2 _ _ k3 k4))) in
      rw
        (
          kuz_subkey_lem _ 0 k0 (omega arith),
          kuz_subkey_lem _ 8 k1 (omega arith),
          kuz_subkey_lem _ 16 k2 (omega arith),
          kuz_subkey_lem _ 24 k3 (omega arith),
          kuz_dekey_loop_lem 10 0 _ all (omega arith),
        )
        refl

  -- With tables of the right rows, and a key of 32 bytes where there is one, the backend for x86-64
  -- and the generic code set the same state or refuse alike.
  pub simd_setkey-generic_setkey :
      (ctx : Bool) (key : Option (List ℕ))
      → ((k : List ℕ) → key ≡ some k → (length k ≡ 32) × Below 256 k)
      → simd_setkey T ctx key ≡ generic_setkey T ctx key
  unfolding simd_setkey generic_setkey
  simd_setkey-generic_setkey false key h = refl
  simd_setkey-generic_setkey true none h = unfold kuz_expand_key in refl
  simd_setkey-generic_setkey true (some k) h = kuz_expand_key_lem k (h k refl)
