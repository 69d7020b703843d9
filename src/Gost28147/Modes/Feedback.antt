-- ===== src/Gost28147/Modes/Feedback.antt =====
-- Cipher feedback: what one direction writes, the other reads back.
use libpogost.Base.{
  ℕ, zero, suc, ◌+◌, ◌≤◌, ◌<◌, min, ◌≡◌, refl, sym, ap, ◌∙◌, Bool, true, false, some, List, [], ◌∷◌,
  ◌++◌, arith, ltb, length, take, drop, length-append, length-take, length-drop, take-append-drop,
  take-append, drop-append, xor_bytes, length-xor_bytes, xor_bytes-cancel, bytes,
}
use libpogost.Gost28147.{State, encrypt_raw}
use libpogost.Gost28147.Feistel.{length-encrypt_raw}
use libpogost.Gost28147.Modes.{mesh_due, cfb_loop, cfb_crypt}

-- The bytes that one round of the loop writes, from the state after the meshing.
abbrev chunk : State × List ℕ → List ℕ → List ℕ
chunk meshed rest = xor_bytes (take (min (length rest) 8) rest) (encrypt_raw meshed.0 meshed.1)

length-chunk : (m : State × List ℕ) (rest : List ℕ) → length (chunk m rest) ≡ min (length rest) 8
length-chunk m rest = omega (
  arith,
  length-xor_bytes (take (min (length rest) 8) rest) (encrypt_raw m.0 m.1),
  length-take (min (length rest) 8) rest,
  length-encrypt_raw m.0 m.1,
)

-- The result of a run, and the run of the other direction over what it wrote.
record Undone (mesh : Bool) (fuel : ℕ) (st : State) (off : ℕ) (iv rest : List ℕ) : Type 0 where
  same_length : length (cfb_loop true mesh fuel st off iv rest).1 ≡ length rest
  undone :
      cfb_loop false mesh fuel st off iv (cfb_loop true mesh fuel st off iv rest).1
      ≡ ((cfb_loop true mesh fuel st off iv rest).0, rest)

cfb_loop-nil :
    (enc mesh : Bool) (fuel : ℕ) (st : State) (off : ℕ) (iv : List ℕ)
    → cfb_loop enc mesh fuel st off iv [] ≡ (st, [])
unfolding cfb_loop
cfb_loop-nil enc mesh zero st off iv = refl
cfb_loop-nil enc mesh (suc fuel) st off iv = refl

module _ (mesh : Bool) (fuel : ℕ) (st : State) (off : ℕ) (iv rest : List ℕ) where
  abbrev meshed : State × List ℕ
  meshed = mesh_due mesh off st iv

  abbrev later : Bool → List ℕ → State × List ℕ
  later enc fed =
      cfb_loop enc mesh fuel meshed.0 (off + min (length rest) 8)
        (fed ++ drop (min (length rest) 8) meshed.1) (drop (min (length rest) 8) rest)

  -- One round of the loop, where there is input left.
  cfb_loop-enc :
      0 < length rest
      → cfb_loop true mesh (suc fuel) st off iv rest ≡ (
        (later true (chunk meshed rest)).0,
        chunk meshed rest ++ (later true (chunk meshed rest)).1,
      )
  unfolding cfb_loop
  cfb_loop-enc h = let e : ltb 0 (length rest) ≡ true = ground arith in rw e

  -- A round of decryption over what a round of encryption wrote, `c`, and the `out` behind it.
  cfb_loop-dec :
      (n : ℕ) (c out : List ℕ)
      → 0 < n
      → n ≡ length c
      → min (length (c ++ out)) 8 ≡ n
      → cfb_loop false mesh (suc fuel) st off iv (c ++ out) ≡ (
          let y = cfb_loop false mesh fuel meshed.0 (off + n) (c ++ drop n meshed.1) out in
          (y.0, xor_bytes c (encrypt_raw meshed.0 meshed.1) ++ y.1))
  unfolding cfb_loop
  cfb_loop-dec n c out pos e k =
      let some_left : ltb 0 (length (c ++ out)) ≡ true = ground arith in
      rw (some_left, k, take-append n c out e, drop-append n c out e)

-- One round of both directions, from the rounds that follow.
Undone-suc :
    (mesh : Bool) (fuel : ℕ) (st : State) (off : ℕ) (iv rest : List ℕ)
    → 0 < length rest
    → (let m = mesh_due mesh off st iv in
        let n = min (length rest) 8 in
        Undone mesh fuel m.0 (off + n) (chunk m rest ++ drop n m.1) (drop n rest))
    → Undone mesh (suc fuel) st off iv rest
Undone-suc mesh fuel st off iv rest pos ih = record {
  same_length =
      ap (λ r. length (r.1)) step
      ∙ omega (arith, length-append c ct, length-chunk m rest, ih.same_length, length-drop n rest);
  undone = rw step (
      cfb_loop-dec mesh fuel st off iv rest n c ct (omega arith) (sym (length-chunk m rest)) whole
      ∙ ap (λ y. (y.0, xor_bytes c (encrypt_raw m.0 m.1) ++ y.1)) ih.undone
      ∙ ap (λ t. ((cfb_loop true mesh fuel m.0 (off + n) (c ++ drop n m.1) (drop n rest)).0, t))
          (ap (λ t. t ++ drop n rest) plain ∙ take-append-drop n rest));
}
  where
    m : State × List ℕ
    m = mesh_due mesh off st iv

    n : ℕ
    n = min (length rest) 8

    c : List ℕ
    c = chunk m rest

    ct : List ℕ
    ct = (cfb_loop true mesh fuel m.0 (off + n) (c ++ drop n m.1) (drop n rest)).1

    step :
        cfb_loop true mesh (suc fuel) st off iv rest
        ≡ ((cfb_loop true mesh fuel m.0 (off + n) (c ++ drop n m.1) (drop n rest)).0, c ++ ct)
    step = cfb_loop-enc mesh fuel st off iv rest pos

    whole : min (length (c ++ ct)) 8 ≡ n
    whole =
        omega (arith, length-append c ct, length-chunk m rest, ih.same_length, length-drop n rest)

    plain : xor_bytes c (encrypt_raw m.0 m.1) ≡ take n rest
    plain =
        xor_bytes-cancel (take n rest) (encrypt_raw m.0 m.1)
          (omega (arith, length-take n rest, length-encrypt_raw m.0 m.1))

Undone-nil :
    (mesh : Bool) (fuel : ℕ) (st : State) (off : ℕ) (iv : List ℕ) → Undone mesh fuel st off iv []
Undone-nil mesh fuel st off iv =
    let e = cfb_loop-nil true mesh fuel st off iv in
    record {
      same_length = ap (λ r. length (r.1)) e;
      undone = rw e (cfb_loop-nil false mesh fuel st off iv);
    }

-- The length of the input is fuel enough, with or without meshing.
cfb_loop-Undone :
    (mesh : Bool) (fuel : ℕ) (st : State) (off : ℕ) (iv rest : List ℕ)
    → length rest ≤ fuel
    → Undone mesh fuel st off iv rest
cfb_loop-Undone mesh fuel st off iv [] h = Undone-nil mesh fuel st off iv
cfb_loop-Undone mesh zero st off iv (x ∷ xs) h = absurd (omega arith)
cfb_loop-Undone mesh (suc fuel) st off iv (x ∷ xs) h =
    let rest = x ∷ xs in
    let m = mesh_due mesh off st iv in
    let n = min (length rest) 8 in
    Undone-suc mesh fuel st off iv rest (omega arith) (
      cfb_loop-Undone mesh fuel m.0 (off + n) (chunk m rest ++ drop n m.1) (drop n rest)
        (omega (arith, length-drop n rest)))

-- `cfb_crypt` accepts every buffer; it returns as many bytes as it is given, and decryption from
-- the same key state and the same initial vector returns the plain bytes and leaves the key
-- state that encryption leaves, whether or not the key is meshed on the way.
pub cfb_crypt-round_trip :
    (mesh : Bool) (st : State) (iv plain : List ℕ)
    → (st' : State) × (secret : List ℕ) × (cfb_crypt
          (some st)
          true
          (bytes plain)
          (some iv)
          true
          mesh
        ≡ some (st', secret))
      × (length secret ≡ length plain)
      × (cfb_crypt (some st) true (bytes secret) (some iv) false mesh ≡ some (st', plain))
unfolding cfb_crypt
cfb_crypt-round_trip mesh st iv plain =
    let run = cfb_loop true mesh (length plain) st 0 iv plain in
    let u = cfb_loop-Undone mesh (length plain) st 0 iv plain (omega arith) in
    (run.0, run.1, refl, u.same_length, rw u.same_length (ap some u.undone))
