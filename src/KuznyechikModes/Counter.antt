-- ===== src/KuznyechikModes/Counter.antt =====
-- The counter mode: the length it writes, and that it is its own inverse.
use libpogost.Base.{
  ℕ, zero, suc, ◌+◌, ◌≤◌, ◌<◌, min, ◌≡◌, refl, sym, ap, ◌∙◌, inl, inr, true, List, [], ◌∷◌, ◌++◌,
  arith, ltb, ◌==◌, if◌then◌else◌, Bool-cases, length, set, take, drop, replicate, length-append,
  length-set, length-take, length-drop, take-append-drop, take-append, drop-append, blit,
  length-blit, u8, byte_at, xor_bytes, length-xor_bytes, xor_bytes-cancel,
}
use libpogost.KuznyechikModes.{BlockCipher, ctr_inc_loop, ctr_inc, renewed, ctr_loop, ctr_acpkm}

length-ctr_inc_loop : (i : ℕ) (ctr : List ℕ) → length (ctr_inc_loop i ctr) ≡ length ctr
unfolding ctr_inc_loop
length-ctr_inc_loop zero ctr = refl
length-ctr_inc_loop (suc i) ctr =
    let c = u8 (byte_at ctr i + 1) in
    elim (Bool-cases (c == 0)) [
      | inl e ↦ rw e (length-ctr_inc_loop i (set ctr i c) ∙ length-set ctr i c)
      | inr e ↦ rw e (length-set ctr i c)
    ]

length-ctr_inc : (ctr : List ℕ) → length (ctr_inc ctr) ≡ length ctr
unfolding ctr_inc
length-ctr_inc ctr = length-ctr_inc_loop 16 ctr

module _ (E : BlockCipher) (section_size : ℕ) where
  ctr_loop-nil :
      (fuel : ℕ) (ctx : E.Ctx) (ctr : List ℕ) (done : ℕ)
      → ctr_loop E fuel ctx ctr done [] section_size ≡ []
  unfolding ctr_loop
  ctr_loop-nil zero ctx ctr done = refl
  ctr_loop-nil (suc fuel) ctx ctr done = refl

  -- One round, where `n` bytes are taken.
  ctr_loop-suc :
      (fuel : ℕ) (ctx : E.Ctx) (ctr : List ℕ) (done n : ℕ) (rest : List ℕ)
      → 0 < length rest
      → n ≡ min (length rest) 16
      → ctr_loop E (suc fuel) ctx ctr done rest section_size
        ≡ xor_bytes (take n rest) (E.encrypt (renewed E ctx done section_size) ctr)
          ++ ctr_loop E fuel
              (renewed E ctx done section_size)
              (ctr_inc ctr)
              (done + n)
              (drop n rest)
              section_size
  unfolding ctr_loop
  ctr_loop-suc fuel ctx ctr done n rest p e =
      let some_left : ltb 0 (length rest) ≡ true = ground arith in
      let taken : (if ltb (length rest) 16 then length rest else 16) ≡ n =
        round_length (length rest) ∙ sym e in
      rw (some_left, taken) refl
    where
      round_length : (l : ℕ) → (if ltb l 16 then l else 16) ≡ min l 16
      round_length l = ground arith

  -- A run that writes as much as it reads and that a second run undoes.
  record Undone (fuel : ℕ) (ctx : E.Ctx) (ctr : List ℕ) (done : ℕ) (rest : List ℕ) : Type 0 where
    same_length : length (ctr_loop E fuel ctx ctr done rest section_size) ≡ length rest
    undone :
        ctr_loop E fuel ctx ctr done (ctr_loop E fuel ctx ctr done rest section_size) section_size
        ≡ rest

  Undone-suc :
      (fuel : ℕ) (ctx : E.Ctx) (ctr : List ℕ) (done n : ℕ) (rest : List ℕ)
      → length ctr ≡ 16
      → 0 < length rest
      → n ≡ min (length rest) 16
      → Undone fuel (renewed E ctx done section_size) (ctr_inc ctr) (done + n) (drop n rest)
      → Undone (suc fuel) ctx ctr done rest
  Undone-suc fuel ctx ctr done n rest h p e ih =
      let ctx' = renewed E ctx done section_size in
      let s = E.encrypt ctx' ctr in
      let ls : length s ≡ 16 = E.length-encrypt ctx' ctr h in
      let c = xor_bytes (take n rest) s in
      let out = ctr_loop E fuel ctx' (ctr_inc ctr) (done + n) (drop n rest) section_size in
      let lt = length-take n rest in
      let lc : n ≡ length c = omega (arith, length-xor_bytes (take n rest) s) in
      let once = ctr_loop-suc fuel ctx ctr done n rest p e in
      let whole : length (c ++ out) ≡ length rest =
        omega (arith, length-append c out, ih.same_length, length-drop n rest) in
      let twice = ctr_loop-suc fuel ctx ctr done n (c ++ out) (omega arith) (omega arith) in
      let back = xor_bytes-cancel (take n rest) s (omega arith) in
      record {
        same_length = rw once whole;
        undone =
            rw (once, twice, take-append n c out lc, drop-append n c out lc, ih.undone, back)
              (take-append-drop n rest);
      }

  ctr_loop-Undone :
      (fuel : ℕ) (ctx : E.Ctx) (ctr : List ℕ) (done : ℕ) (rest : List ℕ)
      → length ctr ≡ 16
      → length rest ≤ fuel
      → Undone fuel ctx ctr done rest
  ctr_loop-Undone fuel ctx ctr done [] h fits =
      let e = ctr_loop-nil fuel ctx ctr done in
      record { same_length = rw e refl; undone = rw (e, e) refl }
  ctr_loop-Undone zero ctx ctr done (x ∷ rest) h fits = absurd (omega arith)
  ctr_loop-Undone (suc fuel) ctx ctr done (x ∷ rest) h fits =
      let n = min (length (x ∷ rest)) 16 in
      Undone-suc fuel ctx ctr done n (x ∷ rest) h (omega arith) refl (
        ctr_loop-Undone fuel (renewed E ctx done section_size) (ctr_inc ctr) (done + n)
          (drop n (x ∷ rest)) (length-ctr_inc ctr ∙ h) (omega (arith, length-drop n (x ∷ rest))))

-- With an initial vector of eight bytes, and whatever the section size: the counter mode writes as
-- many bytes as it reads, and the same call on what it wrote gives the input back.
pub ctr_acpkm-ctr_acpkm :
    (E : BlockCipher) (in_ key iv : List ℕ) (section_size : ℕ)
    → length iv ≡ 8
    → (length (ctr_acpkm E in_ key iv section_size) ≡ length in_)
      × (ctr_acpkm E (ctr_acpkm E in_ key iv section_size) key iv section_size ≡ in_)
unfolding ctr_acpkm
ctr_acpkm-ctr_acpkm E in_ key iv section_size h =
    let ctr = blit (replicate 16 0) 0 (take 8 iv) in
    let lt = length-take 8 iv in
    let lc : length ctr ≡ 16 = length-blit (replicate 16 0) 0 (take 8 iv) (omega arith) in
    let u = ctr_loop-Undone E section_size (length in_) (E.setkey key) ctr 0 in_ lc (omega arith) in
    (
      u.same_length,
      ap
            (λ k.
              ctr_loop E k (E.setkey key) ctr 0
                (ctr_loop E (length in_) (E.setkey key) ctr 0 in_ section_size) section_size)
            u.same_length
          ∙ u.undone,
    )
