-- ===== src/Kdf/Output.antt =====
-- What the derivations return: which requests they accept, and how many bytes they give.
use libpogost.Base.{
  ℕ, zero, suc, ◌+◌, ◌-◌, ◌*◌, ◌/◌, ◌%◌, ◌≤◌, ◌<◌, min, ◌≡◌, refl, sym, ap, ap₂, ◌∙◌, inl, inr,
  true, false, some, List, [], ◌∷◌, ◌++◌, append-nil, arith, ltb, ◌==◌, if◌then◌else◌, Bool-cases,
  length, take, length-append, length-take, take-append_le, take-eq_self, take-take_le,
  take-append_ge, u8, u64,
}
use libpogost.Hmac.{hmac_streebog256, hmac_streebog256_parts}
use libpogost.Hmac.Parts.{length-hmac_streebog256, length-hmac_streebog256_parts}
use libpogost.Kdf.{
  kdf_tree_loop, kdf_tree_256, prf_loop, tls_prf_256, expand_loop, hkdf_expand, put_be,
}

length-kdf_tree_loop :
    (n counter : ℕ) (key label suffix : List ℕ)
    → length (kdf_tree_loop n counter key label suffix) ≡ 32 * n
unfolding kdf_tree_loop
length-kdf_tree_loop zero counter key label suffix = refl
length-kdf_tree_loop (suc n) counter key label suffix = omega (
  arith,
  length-append (hmac_streebog256_parts key (counter ∷ []) label suffix)
      (kdf_tree_loop n (u8 (counter + 1)) key label suffix),
  length-hmac_streebog256_parts key (counter ∷ []) label suffix,
  length-kdf_tree_loop n (u8 (counter + 1)) key label suffix,
)

-- `kdf_tree_256` gives as many bytes as are asked for, if these are from 1 to 255 blocks of 32
-- and the seed has at most 255 bytes.
pub kdf_tree_256-total :
    (k : ℕ) (key label seed : List ℕ)
    → 0 < k
    → k ≤ 255
    → length seed ≤ 255
    → (out : List ℕ) × (kdf_tree_256 (32 * k) key label seed ≡ some out) × (length out ≡ 32 * k)
unfolding kdf_tree_256
kdf_tree_256-total k key label seed pos few short = (
  _,
  ground arith,
  length-kdf_tree_loop (32 * k / 32) 1 key label ((0 ∷ seed) ++ put_be (u64 (32 * k * 8)))
      ∙ (let e : 32 * (32 * k / 32) ≡ 32 * k = omega arith in e),
)

-- What `kdf_tree_256` accepts is a positive number of whole blocks, at most 255, and a seed of at
-- most 255 bytes; the output then has the length asked for.
pub kdf_tree_256-accepts :
    (n : ℕ) (key label seed out : List ℕ)
    → kdf_tree_256 n key label seed ≡ some out
    → (0 < n) × (n % 32 ≡ 0) × (n / 32 ≤ 255) × (length seed ≤ 255) × (length out ≡ n)
unfolding kdf_tree_256
kdf_tree_256-accepts n key label seed out e =
    ground (arith, length-kdf_tree_loop (n / 32) 1 key label ((0 ∷ seed) ++ put_be (u64 (n * 8))))

-- One round of `tls_prf_256`.
prf_loop-suc :
    (f n : ℕ) (secret a label seed : List ℕ)
    → 0 < n
    → prf_loop (suc f) n secret a label seed
      ≡ take (min n 32) (hmac_streebog256_parts secret a label seed)
        ++ prf_loop f (n - min n 32) secret (hmac_streebog256 secret a) label seed
unfolding prf_loop
prf_loop-suc f n secret a label seed h =
    let size : (if ltb n 32 then n else 32) ≡ min n 32 = ground arith in
    let some_left : ltb 0 n ≡ true = ground arith in rw (some_left, size)

prf_loop-zero : (f : ℕ) (secret a label seed : List ℕ) → prf_loop f 0 secret a label seed ≡ []
unfolding prf_loop
prf_loop-zero zero secret a label seed = refl
prf_loop-zero (suc f) secret a label seed = refl

-- Both requests end in this block.
take_last :
    (n m : ℕ) (block later : List ℕ)
    → length block ≡ 32
    → n ≤ m
    → n ≤ 32
    → take (min n 32) block ++ [] ≡ take n (take (min m 32) block ++ later)
take_last n m block later e h k =
    append-nil (take (min n 32) block)
    ∙ (let s : min n 32 ≡ n = omega arith in ap (λ t. take t block) s)
    ∙ sym (take-take_le n (min m 32) block (omega arith))
    ∙ sym (
        take-append_le n (take (min m 32) block) later
          (omega (arith, length-take (min m 32) block)))

-- Both requests go on behind this block.
take_on :
    (n m : ℕ) (block r later : List ℕ)
    → length block ≡ 32
    → n ≤ m
    → 32 < n
    → r ≡ take (n - 32) later
    → take (min n 32) block ++ r ≡ take n (take (min m 32) block ++ later)
take_on n m block r later e h k ih =
    ap₂ ◌++◌ (whole n k) ih
    ∙ ap (λ t. block ++ take (n - t) later) (sym e)
    ∙ sym (take-append_ge n block later (omega arith))
    ∙ ap (λ t. take n (t ++ later)) (sym (whole m (omega arith)))
  where
    whole : (l : ℕ) → 32 < l → take (min l 32) block ≡ block
    whole l h = take-eq_self (min l 32) block (omega arith)

prf_loop-take :
    (f g n m : ℕ) (secret a label seed : List ℕ)
    → n ≤ m
    → n ≤ f
    → m ≤ g
    → prf_loop f n secret a label seed ≡ take n (prf_loop g m secret a label seed)
prf_loop-take f g zero m secret a label seed h p q = prf_loop-zero f secret a label seed
prf_loop-take zero g (suc n) m secret a label seed h p q = absurd (omega arith)
prf_loop-take (suc f) zero (suc n) m secret a label seed h p q = absurd (omega arith)
prf_loop-take (suc f) (suc g) (suc n) m secret a label seed h p q =
    let block = hmac_streebog256_parts secret a label seed in
    let a' = hmac_streebog256 secret a in
    let e = length-hmac_streebog256_parts secret a label seed in
    let later = prf_loop g (m - min m 32) secret a' label seed in
    prf_loop-suc f (suc n) secret a label seed (omega arith)
    ∙ elim (Bool-cases (ltb 32 (suc n))) [
      | inl long ↦ take_on (suc n) m block _ later e h (ground arith) (
          prf_loop-take f g (suc n - min (suc n) 32) (m - min m 32) secret a' label seed
            (omega arith) (omega arith) (omega arith)
          ∙ (let s : suc n - min (suc n) 32 ≡ suc n - 32 = ground arith in
              ap (λ t. take t later) s))
      | inr short ↦
          ap (λ t. take (min (suc n) 32) block ++ t)
            ((let s : suc n - min (suc n) 32 ≡ 0 = ground arith in
                ap (λ t. prf_loop f t secret a' label seed) s)
              ∙ prf_loop-zero f secret a' label seed)
          ∙ take_last (suc n) m block later e h (ground arith)
    ]
    ∙ ap (take (suc n)) (sym (prf_loop-suc g m secret a label seed (omega arith)))

length-prf_loop :
    (f n : ℕ) (secret a label seed : List ℕ) → n ≤ f → length (prf_loop f n secret a label seed) ≡ n
length-prf_loop f zero secret a label seed h = ap length (prf_loop-zero f secret a label seed)
length-prf_loop zero (suc n) secret a label seed h = absurd (omega arith)
length-prf_loop (suc f) (suc n) secret a label seed h =
    let block = hmac_streebog256_parts secret a label seed in
    let a' = hmac_streebog256 secret a in
    ap length (prf_loop-suc f (suc n) secret a label seed (omega arith))
    ∙ omega (
      arith,
      length-append (take (min (suc n) 32) block)
          (prf_loop f (suc n - min (suc n) 32) secret a' label seed),
      length-take (min (suc n) 32) block,
      length-hmac_streebog256_parts secret a label seed,
      length-prf_loop f (suc n - min (suc n) 32) secret a' label seed (omega arith),
    )

-- `tls_prf_256` gives exactly the bytes asked for, and a request for fewer bytes gives the first
-- bytes of a request for more.
pub tls_prf_256-take :
    (n m : ℕ) (secret label seed : List ℕ)
    → n ≤ m
    → (length (tls_prf_256 n secret label seed) ≡ n)
      × (tls_prf_256 n secret label seed ≡ take n (tls_prf_256 m secret label seed))
unfolding tls_prf_256
tls_prf_256-take n m secret label seed h = (
  length-prf_loop n n secret _ label seed (omega arith),
  prf_loop-take n m n m secret _ label seed h (omega arith) (omega arith),
)

-- One round of the expansion, from the rounds that follow.
abbrev in_buf : ℕ → List ℕ → List ℕ → List ℕ
in_buf counter t info = (if counter == 1 then [] else t) ++ (info ++ (counter ∷ []))

length-in_buf :
    (counter : ℕ) (t info : List ℕ)
    → length t ≤ 32
    → length info ≤ 479
    → length (in_buf counter t info) ≤ 512
length-in_buf counter t info h k = elim (Bool-cases (counter == 1)) [
  | inl e ↦ rw e (omega (arith, length-append info (counter ∷ [])))
  | inr e ↦
      rw e
        (omega (arith, length-append t (info ++ (counter ∷ [])), length-append info (counter ∷ [])))
]

expand_loop-suc :
    (f n counter : ℕ) (t prk info : List ℕ) {okm : List ℕ}
    → 0 < n
    → length (in_buf counter t info) ≤ 512
    → expand_loop f
        (n - min n 32)
        (u8 (counter + 1))
        (hmac_streebog256 prk (in_buf counter t info))
        prk
        info
      ≡ some okm
    → expand_loop (suc f) n counter t prk info
      ≡ some (take (min n 32) (hmac_streebog256 prk (in_buf counter t info)) ++ okm)
unfolding expand_loop
expand_loop-suc f n counter t prk info h k e =
    let size : (if ltb n 32 then n else 32) ≡ min n 32 = ground arith in
    let some_left : ltb 0 n ≡ true = ground arith in
    let fits : ltb 512 (length (in_buf counter t info)) ≡ false = ground arith in
    rw (some_left, size, fits, e)

-- The loop succeeds on information that leaves room for a block and the counter.
expand_loop-total :
    (f n counter : ℕ) (t prk info : List ℕ)
    → n ≤ f
    → length t ≤ 32
    → length info ≤ 479
    → (okm : List ℕ) × (expand_loop f n counter t prk info ≡ some okm) × (length okm ≡ n)
expand_loop-total zero n counter t prk info h k l = ([], unfold expand_loop in refl, omega arith)
expand_loop-total (suc f) zero counter t prk info h k l = ([], unfold expand_loop in refl, refl)
expand_loop-total (suc f) (suc n) counter t prk info h k l =
    let t' = hmac_streebog256 prk (in_buf counter t info) in
    let e = length-hmac_streebog256 prk (in_buf counter t info) in
    let rest =
      expand_loop-total f (suc n - min (suc n) 32) (u8 (counter + 1)) t' prk info (omega arith)
        (omega arith) l in
    (
      take (min (suc n) 32) t' ++ rest.0,
      expand_loop-suc f (suc n) counter t prk info (omega arith) (length-in_buf counter t info k l)
          rest.1,
      omega (
        arith,
        length-append (take (min (suc n) 32) t') rest.0,
        length-take (min (suc n) 32) t',
        e,
        rest,
      ),
    )

-- `hkdf_expand` gives exactly the bytes asked for, up to 255 blocks of 32, when the information
-- has at most 479 bytes.
hkdf_expand-total :
    (n : ℕ) (prk info : List ℕ)
    → length info ≤ 479
    → n ≤ 8160
    → (okm : List ℕ) × (hkdf_expand n prk info ≡ some okm) × (length okm ≡ n)
unfolding hkdf_expand
hkdf_expand-total n prk info l h =
    let fits : ltb (255 * 32) n ≡ false = ground arith in
    rw fits (expand_loop-total n n 1 [] prk info (omega arith) (omega arith) l)
