-- ===== src/Kuznyechik/Schedule.antt =====
-- The key schedule gives ten round keys and their images under the inverse of the linear map.
use libpogost.Base.{
  ℕ, zero, suc, ◌+◌, ◌*◌, ◌≤◌, ◌<◌, ◌≡◌, refl, sym, ap, ◌∙◌, Bool, true, ◌&&◌, some, List, [], ◌∷◌,
  ◌++◌, arith, ltb, ◌==◌, ==_iff, each_below, by_each_below, length, get_or, take, drop,
  length-append, length-take, length-drop, take-append, drop-append, drop-drop, Below, Below-append,
  Below-take, Below-drop, xor_bytes,
}
use libpogost.Kuznyechik.Data.{kuz_key_table}
use libpogost.Kuznyechik.{
  Tables, State, part, linv_transform, lsx_transform, dekey_loop, subkey, expand_key,
  generic_setkey, setkey, encrypt, decrypt,
}
use libpogost.Kuznyechik.Linear.{IsBlock, xor-IsBlock, linear-IsLinear, linear_inv-IsLinear}
use libpogost.Kuznyechik.Rounds.{IsTables}
use libpogost.Kuznyechik.Cipher.{
  lsx_lem, linv_lem, s_transform-IsBlock, Fits, generic_decrypt-generic_encrypt,
}

is_below : List ℕ → Bool
is_below [] = true
is_below (x ∷ b) = ltb x 256 && is_below b

Below-is_below : (b : List ℕ) → is_below b ≡ true → Below 256 b
unfolding is_below
Below-is_below [] h = tt
Below-is_below (x ∷ b) h =
    let r = both (ltb x 256) (is_below b) h in (ground (arith, r), Below-is_below b r.1)
  where
    both : (a b : Bool) → (a && b) ≡ true → (a ≡ true) × (b ≡ true)
    both a b h = ground (arith, h)

abbrev pub constant : ℕ → List ℕ
constant j = get_or kuz_key_table j []

constant_test : ℕ → Bool
constant_test j = (length (constant j) == 16) && is_below (constant j)

constant_tests : each_below constant_test 32 ≡ true
unfolding each_below constant_test is_below
constant_tests = refl

pub constant-IsBlock : (j : ℕ) → j < 32 → IsBlock (constant j)
unfolding constant_test
constant-IsBlock j h =
    let r =
      both (length (constant j) == 16) (is_below (constant j))
        (by_each_below constant_test 32 constant_tests j h) in
    ((==_iff (length (constant j)) 16).0 r.0, Below-is_below (constant j) r.1)
  where
    both : (a b : Bool) → (a && b) ≡ true → (a ≡ true) × (b ≡ true)
    both a b h = ground (arith, h)

-- Whole parts of a key.
abbrev pub IsKey : ℕ → List ℕ → Type 0
IsKey n key = (length key ≡ 16 * n) × Below 256 key

pub part-IsBlock : (n : ℕ) (key : List ℕ) (i : ℕ) → IsKey n key → i < n → IsBlock (part key i)
part-IsBlock n key i h k = (
  omega (arith, length-take 16 (drop (16 * i) key), length-drop (16 * i) key, h.0),
  Below-take 256 16 (drop (16 * i) key) (Below-drop 256 (16 * i) key h.1),
)

pub append-IsKey : (n m : ℕ) (a b : List ℕ) → IsKey n a → IsKey m b → IsKey (n + m) (a ++ b)
append-IsKey n m a b h k =
    (omega (arith, length-append a b, h.0, k.0), Below-append 256 a b h.1 k.1)

module _ (T : Tables) (w : IsTables T) where
  lsx-IsBlock : (b c : List ℕ) → IsBlock b → IsBlock c → IsBlock (lsx_transform T b c)
  lsx-IsBlock b c h k =
      let x = xor_bytes b c in
      rw (lsx_lem T w b c h k)
        (linear-IsLinear.block _ (s_transform-IsBlock x (xor-IsBlock b c h k)))

  -- One round of the schedule.
  pub round-IsBlock :
      (x y : List ℕ) (j : ℕ)
      → IsBlock x
      → IsBlock y
      → j < 32
      → IsBlock (xor_bytes (lsx_transform T x (constant j)) y)
        × IsBlock (xor_bytes y (lsx_transform T x (constant j)))
  round-IsBlock x y j h k p =
      let s = lsx-IsBlock x (constant j) h (constant-IsBlock j p) in
      (xor-IsBlock _ y s k, xor-IsBlock y _ k s)

  pub subkey-IsKey : (key : List ℕ) (i : ℕ) → IsKey 2 key → i ≤ 24 → IsKey 2 (subkey T key i)
  unfolding subkey
  subkey-IsKey key i h p =
      let k0 = part-IsBlock 2 key 0 h (omega arith) in
      let k1 = part-IsBlock 2 key 1 h (omega arith) in
      let b1 = (round-IsBlock (part key 0) (part key 1) (i + 0) k0 k1 (omega arith)).0 in
      let a1 = (round-IsBlock _ (part key 0) (i + 1) b1 k0 (omega arith)).0 in
      let b2 = (round-IsBlock _ _ (i + 2) a1 b1 (omega arith)).1 in
      let a2 = (round-IsBlock _ _ (i + 3) b2 a1 (omega arith)).1 in
      let b3 = (round-IsBlock _ _ (i + 4) a2 b2 (omega arith)).1 in
      let a3 = (round-IsBlock _ _ (i + 5) b3 a2 (omega arith)).1 in
      let b4 = (round-IsBlock _ _ (i + 6) a3 b3 (omega arith)).1 in
      let a4 = (round-IsBlock _ _ (i + 7) b4 a3 (omega arith)).1 in append-IsKey 1 1 _ _ a4 b4

  -- The parts of `dekey`.
  part-dekey_loop :
      (left i j : ℕ) (key : List ℕ)
      → IsKey (left + j) key
      → i < left
      → part (dekey_loop T left j key) i ≡ linv_transform T (part key (j + i))
  unfolding dekey_loop
  part-dekey_loop zero i j key h p = absurd (omega arith)
  part-dekey_loop (suc left) zero j key h p =
      let b = part-IsBlock (suc left + j) key j h (omega arith) in
      let d = linv_transform T (part key j) in
      let db : IsBlock d =
        rw (linv_lem T w (part key j) b) (linear_inv-IsLinear.block (part key j) b) in
      let z : j ≡ j + 0 = omega arith in
      take-append 16 d (dekey_loop T left (j + 1) key) (sym db.0)
      ∙ ap (λ k. linv_transform T (part key k)) z
  part-dekey_loop (suc left) (suc i) j key h p =
      let b = part-IsBlock (suc left + j) key j h (omega arith) in
      let d = linv_transform T (part key j) in
      let db : IsBlock d =
        rw (linv_lem T w (part key j) b) (linear_inv-IsLinear.block (part key j) b) in
      let rest = dekey_loop T left (j + 1) key in
      let s : 16 * suc i ≡ 16 + 16 * i = omega arith in
      let e : j + 1 + i ≡ j + suc i = omega arith in
      ap (λ k. take 16 (drop k (d ++ rest))) s
      ∙ ap (λ t. take 16 t)
          (sym (drop-drop (16 * i) 16 (d ++ rest))
            ∙ ap (λ t. drop (16 * i) t) (drop-append 16 d rest (sym db.0)))
      ∙ part-dekey_loop left i (j + 1) key (omega (arith, h.0), h.1) (omega arith)
      ∙ ap (λ k. linv_transform T (part key k)) e

  pub expand_key-Fits : (key : List ℕ) → IsKey 2 key → Fits T w (expand_key T key)
  unfolding expand_key
  expand_key-Fits key h =
      let k0 : IsKey 2 (take 32 key) =
        (omega (arith, length-take 32 key, h.0), Below-take 256 32 key h.1) in
      let k1 = subkey-IsKey (take 32 key) 0 k0 (omega arith) in
      let k2 = subkey-IsKey _ 8 k1 (omega arith) in
      let k3 = subkey-IsKey _ 16 k2 (omega arith) in
      let k4 = subkey-IsKey _ 24 k3 (omega arith) in
      let all =
        append-IsKey 2 8 _ _ k0
          (append-IsKey 2 6 _ _ k1 (append-IsKey 2 4 _ _ k2 (append-IsKey 2 2 _ _ k3 k4))) in
      record {
        blocks = λ i p. part-IsBlock 10 (expand_key T key).key i all p;
        inverses = λ i p.
            part-dekey_loop 10 i 0 (expand_key T key).key all p
            ∙ ap (λ k. linv_transform T (part (expand_key T key).key k))
                (let e : 0 + i ≡ i = omega arith in e);
      }

  -- With tables of the right rows, a key of 32 bytes is taken, and decrypting an encrypted block
  -- gives the block back.
  pub decrypt-encrypt :
      (key b : List ℕ)
      → length key ≡ 32
      → Below 256 key
      → IsBlock b
      → (st : State) × (setkey T true (some key) ≡ some st) × (decrypt T st (encrypt T st b) ≡ b)
  unfolding setkey generic_setkey encrypt decrypt
  decrypt-encrypt key b e h g = (
    expand_key T key,
    refl,
    generic_decrypt-generic_encrypt T w (expand_key T key) b (expand_key-Fits key (e, h)) g,
  )
