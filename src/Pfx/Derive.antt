-- ===== src/Pfx/Derive.antt =====
-- The derivation of keys accepts every password and salt that fit its buffer.
use libpogost.Base.{
  ℕ, zero, suc, ◌+◌, ◌-◌, ◌≤◌, ◌<◌, ◌≡◌, refl, inl, inr, false, some, List, arith, ltb, ◌==◌,
  ==_iff, Bool-cases, length, take, length-take, Below, Below-take, Buffer, bytes, len, contents,
  is_missing,
}
use libpogost.Sha1.{init, update, final}
use libpogost.Sha1.Length.{length-final}
use libpogost.Pfx.{whole_blocks, derive_rounds, derive_from, pkcs12_sha1_derive}

derive_rounds_lem :
    (left : ℕ) (a : List ℕ)
    → (length a ≡ 20) × Below 256 a
    → (length (derive_rounds left a) ≡ 20) × Below 256 (derive_rounds left a)
unfolding derive_rounds
derive_rounds_lem zero a h = h
derive_rounds_lem (suc left) a h =
    derive_rounds_lem left (final (update init a)) (length-final (update init a))

derive_from_lem :
    (id : ℕ) (pass salt : List ℕ) (iter : ℕ)
    → (length (derive_from id pass salt iter) ≡ 20) × Below 256 (derive_from id pass salt iter)
unfolding derive_from
derive_from_lem id pass salt iter = derive_rounds_lem (iter - 1) _ (length-final _)

-- What the guards of the functions over SHA-1 ask for.
pub record Accepts (pass : Buffer) (salt : List ℕ) (iter : ℕ) : Type 0 where
  pub some_pass : is_missing pass ≡ false
  pub some_salt : 0 < length salt
  pub some_rounds : 0 < iter
  pub fits : whole_blocks (length salt) + whole_blocks (len pass) ≤ 4096

whole_blocks-le : (n : ℕ) → n ≤ whole_blocks n
unfolding whole_blocks
whole_blocks-le n = elim (Bool-cases (n == 0)) [
  | inl e ↦ let z = (==_iff n 0).0 e in rw e (omega arith)
  | inr e ↦ rw e (omega arith)
]

pub not_below : (x y : ℕ) → y ≤ x → ltb x y ≡ false
not_below x y h = ground arith

pub derive_lem :
    (out_len id : ℕ) (pass : Buffer) (salt : List ℕ) (iter : ℕ)
    → Accepts pass salt iter
    → out_len ≤ 20
    → (a : List ℕ) × (pkcs12_sha1_derive out_len id pass (bytes salt) iter ≡ some a)
      × (length a ≡ out_len)
      × Below 256 a
unfolding pkcs12_sha1_derive
derive_lem out_len id pass salt iter v h =
    let d = derive_from_lem id (contents pass) salt iter in
    let a : (iter == 0) ≡ false = ground (arith, v) in
    let b : (length salt == 0) ≡ false = ground (arith, v) in
    let p = whole_blocks-le (length salt) in
    let q = whole_blocks-le (len pass) in
    let sum = v.fits in
    let c = not_below 4096 (length salt) (omega arith) in
    let e = not_below 4096 (len pass) (omega arith) in
    let f = not_below 4096 (len pass + length salt) (omega arith) in
    let g = not_below 20 out_len h in
    let i = not_below 4096 (whole_blocks (length salt) + whole_blocks (len pass)) v.fits in
    (
      take out_len (derive_from id (contents pass) salt iter),
      rw (v.some_pass, a, b, c, e, f, g, i) refl,
      omega (arith, d.0, length-take out_len (derive_from id (contents pass) salt iter)),
      Below-take 256 out_len (derive_from id (contents pass) salt iter) d.1,
    )
