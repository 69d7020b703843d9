-- ===== src/Kuznyechik/Cipher.antt =====
-- Decryption undoes encryption.
use libpogost.Base.{
  ℕ, zero, suc, ◌+◌, ◌≤◌, ◌<◌, ◌≡◌, refl, ap, ap₂, ◌∙◌, List, [], ◌∷◌, map, arith, length-map,
  Below, xor_bytes, xor_bytes-cancel, xor_bytes_comm,
}
use libpogost.Kuznyechik.{
  Tables, State, pi, pi_inv, s_transform, sinv_transform, part, linv_transform, lsx_transform,
  xli_si, encrypt_rounds, decrypt_rounds, generic_encrypt, generic_decrypt,
}
use libpogost.Kuznyechik.Linear.{
  IsBlock, xor-IsBlock, linear, linear_inv, linear-IsLinear, linear_inv-IsLinear, linear_inv-linear,
}
use libpogost.Kuznyechik.Rounds.{IsTables, pi_lem, joined_lem}

Below-map-pi : (b : List ℕ) → Below 256 b → Below 256 (map pi b)
Below-map-pi [] h = tt
Below-map-pi (x ∷ b) h = ((pi_lem x h.0).0, Below-map-pi b h.1)

sinv_transform-s_transform : (b : List ℕ) → Below 256 b → sinv_transform (s_transform b) ≡ b
unfolding s_transform sinv_transform
sinv_transform-s_transform [] h = refl
sinv_transform-s_transform (x ∷ b) h = ap₂ ◌∷◌ ((pi_lem x h.0).2) (sinv_transform-s_transform b h.1)

pub s_transform-IsBlock : (b : List ℕ) → IsBlock b → IsBlock (s_transform b)
unfolding s_transform
s_transform-IsBlock b h = (length-map b pi ∙ h.0, Below-map-pi b h.1)

module _ (T : Tables) (w : IsTables T) where
  pub lsx_lem :
      (b c : List ℕ)
      → IsBlock b
      → IsBlock c
      → lsx_transform T b c ≡ linear (s_transform (xor_bytes b c))
  unfolding lsx_transform s_transform
  lsx_lem b c h k =
      joined_lem T.table linear linear-IsLinear pi (λ x p. (pi_lem x p).0) w.rows (xor_bytes b c)
        (xor-IsBlock b c h k)

  pub linv_lem : (b : List ℕ) → IsBlock b → linv_transform T b ≡ linear_inv b
  unfolding linv_transform
  linv_lem b h =
      joined_lem T.table_inv linear_inv linear_inv-IsLinear (λ x. x) (λ x p. p) w.rows_inv b h
      ∙ ap linear_inv (map_same b)
    where
      map_same : (b : List ℕ) → map (λ (x : ℕ). x) b ≡ b
      map_same [] = refl
      map_same (x ∷ b) = ap (λ t. x ∷ t) (map_same b)

  xli_lem : (b c : List ℕ) → IsBlock b → xli_si T b c ≡ xor_bytes (linear_inv (sinv_transform b)) c
  unfolding xli_si sinv_transform
  xli_lem b c h =
      ap (λ t. xor_bytes t c)
        (joined_lem T.table_inv_ls linear_inv linear_inv-IsLinear pi_inv (λ x p. (pi_lem x p).1)
          w.rows_inv_ls b h)

  -- A decryption round takes back the round that ended in `linear x`.
  round_back :
      (k x : List ℕ)
      → IsBlock k
      → IsBlock x
      → xli_si T (s_transform (xor_bytes k (linear x))) (linv_transform T k) ≡ x
  round_back k x h g =
      let e = linear x in
      let eb = linear-IsLinear.block x g in
      let ke = xor-IsBlock k e h eb in
      let dk = linear_inv-IsLinear.block k h in
      xli_lem (s_transform (xor_bytes k e)) (linv_transform T k)
        (s_transform-IsBlock (xor_bytes k e) ke)
      ∙ ap₂ (λ s t. xor_bytes (linear_inv s) t) (sinv_transform-s_transform (xor_bytes k e) ke.1)
          (linv_lem k h)
      ∙ ap (λ t. xor_bytes t (linear_inv k))
          (linear_inv-IsLinear.joins k e h eb ∙ xor_bytes_comm (linear_inv k) (linear_inv e))
      ∙ xor_bytes-cancel (linear_inv e) (linear_inv k)
          (omega (arith, dk.0, (linear_inv-IsLinear.block e eb).0))
      ∙ linear_inv-linear x g

  -- What a key state must hold.
  pub record Fits (st : State) : Type 0 where
    pub blocks : (i : ℕ) → i < 10 → IsBlock (part st.key i)
    pub inverses : (i : ℕ) → i < 10 → part st.dekey i ≡ linv_transform T (part st.key i)

  -- The block that goes into the substitution in round `i`.
  abbrev keyed : State → ℕ → List ℕ → List ℕ
  keyed st i b = s_transform (xor_bytes (part st.key i) b)

  pub encrypt_rounds-IsBlock :
      (n i : ℕ) (st : State) (b : List ℕ)
      → Fits st
      → n + i ≤ 10
      → IsBlock b
      → IsBlock (encrypt_rounds T n i st b)
  unfolding encrypt_rounds
  encrypt_rounds-IsBlock zero i st b f h g = g
  encrypt_rounds-IsBlock (suc n) i st b f h g =
      let k = f.blocks i (omega arith) in
      let x = s_transform-IsBlock (xor_bytes (part st.key i) b) (xor-IsBlock _ b k g) in
      encrypt_rounds-IsBlock n (i + 1) st (lsx_transform T (part st.key i) b) f (omega arith)
        (rw (lsx_lem (part st.key i) b k g) (linear-IsLinear.block (keyed st i b) x))

  -- The last of `n + 1` rounds.
  encrypt_rounds-suc :
      (n i : ℕ) (st : State) (b : List ℕ)
      → encrypt_rounds T (suc n) i st b
        ≡ lsx_transform T (part st.key (n + i)) (encrypt_rounds T n i st b)
  unfolding encrypt_rounds
  encrypt_rounds-suc zero i st b =
      ap (λ k. lsx_transform T (part st.key k) b) (let e : i ≡ 0 + i = omega arith in e)
  encrypt_rounds-suc (suc n) i st b =
      encrypt_rounds-suc n (i + 1) st (lsx_transform T (part st.key i) b)
      ∙ ap
          (λ k.
            lsx_transform T (part st.key k)
              (encrypt_rounds T n (i + 1) st (lsx_transform T (part st.key i) b)))
          (let e : n + (i + 1) ≡ suc n + i = omega arith in e)

  -- Decryption rounds lead from the last round back to the first.
  decrypt_rounds-encrypt_rounds :
      (n : ℕ) (st : State) (b : List ℕ)
      → Fits st
      → n < 10
      → IsBlock b
      → decrypt_rounds T n st (keyed st n (encrypt_rounds T n 0 st b)) ≡ keyed st 0 b
  unfolding decrypt_rounds
  decrypt_rounds-encrypt_rounds zero st b f h g =
      ap (λ t. keyed st 0 t)
        (let e : encrypt_rounds T 0 0 st b ≡ b = unfold encrypt_rounds in refl in e)
  decrypt_rounds-encrypt_rounds (suc n) st b f h g =
      let before = encrypt_rounds T n 0 st b in
      let bb = encrypt_rounds-IsBlock n 0 st b f (omega arith) g in
      let k = f.blocks n (omega arith) in
      let k' = f.blocks (suc n) h in
      let x = keyed st n before in
      let xb = s_transform-IsBlock (xor_bytes (part st.key n) before) (xor-IsBlock _ before k bb) in
      let e : encrypt_rounds T (suc n) 0 st b ≡ linear x =
        encrypt_rounds-suc n 0 st b
        ∙ ap (λ k. lsx_transform T (part st.key k) before) (let z : n + 0 ≡ n = omega arith in z)
        ∙ lsx_lem (part st.key n) before k bb in
      ap (λ t. decrypt_rounds T n st t)
        (ap₂ (λ s t. xli_si T (keyed st (suc n) s) t) e (f.inverses (suc n) h)
          ∙ round_back (part st.key (suc n)) x k' xb)
      ∙ decrypt_rounds-encrypt_rounds n st b f (omega arith) g

  pub generic_decrypt-generic_encrypt :
      (st : State) (b : List ℕ)
      → Fits st
      → IsBlock b
      → generic_decrypt T st (generic_encrypt T st b) ≡ b
  unfolding generic_decrypt generic_encrypt
  generic_decrypt-generic_encrypt st b f g =
      let k = f.blocks 0 (omega arith) in
      let kb = xor-IsBlock (part st.key 0) b k g in
      ap (λ t. xor_bytes (sinv_transform t) (part st.key 0))
        (decrypt_rounds-encrypt_rounds 9 st b f (omega arith) g)
      ∙ ap (λ t. xor_bytes t (part st.key 0))
          (sinv_transform-s_transform (xor_bytes (part st.key 0) b) kb.1
            ∙ xor_bytes_comm (part st.key 0) b)
      ∙ xor_bytes-cancel b (part st.key 0) (omega (arith, g.0, k.0))
