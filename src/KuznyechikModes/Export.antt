-- ===== src/KuznyechikModes/Export.antt =====
-- The export of keys: what is exported is imported again, and nothing else is.
use libpogost.Base.{
  ℕ, ◌≡◌, refl, sym, ap, ◌∙◌, inl, inr, some, List, ◌++◌, arith, Bool-cases, length, take, drop,
  length-drop, take-append-drop, take-append, drop-append, memeq, memeq_self, eq_of_memeq,
}
use mathlib.Core.Option.{some-injective, none-ne-some}
use libpogost.KuznyechikModes.{BlockCipher, omac, ctr_acpkm, kexp15, kimp15}
use libpogost.KuznyechikModes.Counter.{ctr_acpkm-ctr_acpkm}
use libpogost.KuznyechikModes.Omac.{length-omac}

-- With an initial vector of eight bytes, kimp15 gives back every key of 32 bytes that kexp15
-- exports under the same two keys.
pub kimp15-kexp15 :
    (E : BlockCipher) (key mac_key enc_key iv : List ℕ)
    → length key ≡ 32
    → length iv ≡ 8
    → kimp15 E (kexp15 E key mac_key enc_key iv) mac_key enc_key iv ≡ some key
unfolding kexp15 kimp15
kimp15-kexp15 E key mac_key enc_key iv lk li =
    let mac = omac E mac_key (take 8 iv ++ key) in
    let plain = (ctr_acpkm-ctr_acpkm E (key ++ mac) enc_key iv 0 li).1 in
    rw (plain, take-append 32 key mac (sym lk), drop-append 32 key mac (sym lk), memeq_self mac)
      refl

-- With an initial vector of eight bytes and an input of 48: the input that kimp15 accepts with a
-- key is exactly what kexp15 exports for that key.
pub kexp15-kimp15 :
    (E : BlockCipher) (in_ key mac_key enc_key iv : List ℕ)
    → length in_ ≡ 48
    → length iv ≡ 8
    → kimp15 E in_ mac_key enc_key iv ≡ some key
    → kexp15 E key mac_key enc_key iv ≡ in_
unfolding kexp15 kimp15
kexp15-kimp15 E in_ key mac_key enc_key iv l li accepted =
    elim (Bool-cases (memeq mac (drop 32 plain))) [
      | inr e ↦ absurd (none-ne-some key (sym (rw e refl) ∙ accepted))
      | inl e ↦
          let k : take 32 plain ≡ key = some-injective _ _ (sym (rw e refl) ∙ accepted) in
          let same =
            eq_of_memeq mac (drop 32 plain)
              (omega (
                arith,
                length-omac E mac_key (take 8 iv ++ take 32 plain),
                length-drop 32 plain,
                inverse.0,
              ))
              e in
          ap (λ x. ctr_acpkm E (x ++ omac E mac_key (take 8 iv ++ x)) enc_key iv 0) (sym k)
          ∙ ap (λ t. ctr_acpkm E (take 32 plain ++ t) enc_key iv 0) same
          ∙ ap (λ p. ctr_acpkm E p enc_key iv 0) (take-append-drop 32 plain)
          ∙ inverse.1
    ]
  where
    plain : List ℕ
    plain = ctr_acpkm E in_ enc_key iv 0

    mac : List ℕ
    mac = omac E mac_key (take 8 iv ++ take 32 plain)

    inverse : (length plain ≡ length in_) × (ctr_acpkm E plain enc_key iv 0 ≡ in_)
    inverse = ctr_acpkm-ctr_acpkm E in_ enc_key iv 0 li
