-- ===== src/Kuznyechik/Interface.antt =====
-- The cipher as the interface of its modes, which call `kuznyechik_setkey` and `kuznyechik_encrypt`.
use libpogost.Base.{
  ℕ, ◌≡◌, refl, sym, ap, ap₂, ◌∙◌, true, some, List, [], ◌∷◌, ◌++◌, map, arith, length, take,
  replicate, length-append, length-replicate, length-take, take-append, Below, Below-append,
  Below-take, Below-replicate, u8,
}
use libpogost.KuznyechikModes.{BlockCipher}
use libpogost.Kuznyechik.{
  Tables, State, part, expand_key, generic_setkey, setkey, generic_encrypt, encrypt,
}
use libpogost.Kuznyechik.Linear.{IsBlock, xor-IsBlock}
use libpogost.Kuznyechik.Rounds.{IsTables}
use libpogost.Kuznyechik.Cipher.{Fits, encrypt_rounds-IsBlock}
use libpogost.Kuznyechik.Schedule.{IsKey, expand_key-Fits}

-- The `n` bytes that the code reads at a pointer; a list that is too short ends in zeros.
abbrev pub read_bytes : ℕ → List ℕ → List ℕ
read_bytes n b = take n (map u8 b ++ replicate n 0)

Below-map-u8 : (b : List ℕ) → Below 256 (map u8 b)
Below-map-u8 [] = tt
Below-map-u8 (x ∷ b) = (omega arith, Below-map-u8 b)

pub read_bytes_lem :
    (n : ℕ) (b : List ℕ) → (length (read_bytes n b) ≡ n) × Below 256 (read_bytes n b)
read_bytes_lem n b =
    let all = map u8 b ++ replicate n 0 in
    (
      omega (
        arith,
        length-take n all,
        length-append (map u8 b) (replicate n 0),
        length-replicate {A = ℕ} n 0,
      ),
      Below-take 256 n all (
          Below-append 256 (map u8 b) (replicate n 0) (Below-map-u8 b)
            (Below-replicate 256 n 0 (omega arith))),
    )

-- Bytes are read as they are.
read_bytes_same : (n : ℕ) (b : List ℕ) → length b ≡ n → Below 256 b → read_bytes n b ≡ b
read_bytes_same n b e h =
    let same = map-u8_same b h in
    ap (λ t. take n (t ++ replicate n 0)) same ∙ take-append n b (replicate n 0) (sym e)
  where
    map-u8_same : (b : List ℕ) → Below 256 b → map u8 b ≡ b
    map-u8_same [] h = refl
    map-u8_same (x ∷ b) h = ap₂ ◌∷◌ (let e : u8 x ≡ x = omega (arith, h.0) in e) (map-u8_same b h.1)

module _ (T : Tables) (w : IsTables T) where
  pub generic_encrypt-IsBlock :
      (st : State) (b : List ℕ) → Fits T w st → IsBlock b → IsBlock (generic_encrypt T st b)
  unfolding generic_encrypt
  generic_encrypt-IsBlock st b f h =
      xor-IsBlock (part st.key 9) _ (f.blocks 9 (omega arith))
        (encrypt_rounds-IsBlock T w 9 0 st b f (omega arith) h)

  -- A state that a key was set to.
  abbrev pub KeyState : Type 0
  KeyState = (st : State) × Fits T w st

  pub take_key : List ℕ → KeyState
  take_key key =
      let k = read_bytes 32 key in (expand_key T k, expand_key-Fits T w k (read_bytes_lem 32 key))

  abbrev pub kuznyechik : BlockCipher
  kuznyechik = record {
    Ctx = KeyState;
    setkey = take_key;
    encrypt = λ ctx b. generic_encrypt T ctx.0 (read_bytes 16 b);
    length-encrypt =
        λ ctx b h. (generic_encrypt-IsBlock ctx.0 (read_bytes 16 b) ctx.1 (read_bytes_lem 16 b)).0;
  }

  -- For a key of 32 bytes and a block, the interface does what the functions do.
  pub kuznyechik_lem :
      (key b : List ℕ)
      → IsKey 2 key
      → IsBlock b
      → let ctx = kuznyechik.setkey key in
        (setkey T true (some key) ≡ some ctx.0) × (kuznyechik.encrypt ctx b ≡ encrypt T ctx.0 b)
  unfolding take_key setkey generic_setkey encrypt
  kuznyechik_lem key b k h = (
    ap (λ t. some (expand_key T t)) (sym (read_bytes_same 32 key k.0 k.1)),
    ap (λ t. generic_encrypt T (take_key key).0 t) (read_bytes_same 16 b h.0 h.1),
  )
