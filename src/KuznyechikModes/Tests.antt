-- ===== src/KuznyechikModes/Tests.antt =====
-- Tests of the modes of Kuznyechik over a block cipher that adds a byte of the key.
use libpogost.Base.{
  ℕ, ◌+◌, ◌≡◌, refl, ◌∙◌, some, List, [], ◌∷◌, ◌++◌, map, length, replicate, length-map, u8,
  byte_at,
}
use libpogost.KuznyechikModes.{
  BlockCipher, shift_left, ctr_inc, omac, omac2, ctr_acpkm, kexp15, kimp15,
}
use libpogost.KuznyechikModes.Counter.{ctr_acpkm-ctr_acpkm}
use libpogost.KuznyechikModes.Parts.{omac-append}
use libpogost.KuznyechikModes.Export.{kimp15-kexp15, kexp15-kimp15}

abbrev adding : BlockCipher
adding = record {
  Ctx = List ℕ;
  setkey = λ key. key;
  encrypt = λ ctx b. map (λ x. u8 (x + byte_at ctx 0)) b;
  length-encrypt = λ ctx b h. length-map b _ ∙ h;
}

ctr_inc_test : ctr_inc (replicate 14 0 ++ (7 ∷ 255 ∷ [])) ≡ replicate 14 0 ++ (8 ∷ 0 ∷ [])
unfolding ctr_inc
ctr_inc_test = refl

shift_left_test :
    shift_left (replicate 14 0 ++ (0x40 ∷ 0x81 ∷ [])) ≡ replicate 14 0 ++ (0x81 ∷ 2 ∷ [])
unfolding shift_left
shift_left_test = refl

abbrev iv : List ℕ
iv = 1 ∷ 2 ∷ 3 ∷ 4 ∷ 5 ∷ 6 ∷ 7 ∷ 8 ∷ []

abbrev key : List ℕ
key = replicate 32 0x5a

abbrev input : List ℕ
input = replicate 37 0x42

ctr_acpkm-ctr_acpkm_example :
    (length (ctr_acpkm adding input key iv 16) ≡ 37)
    × (ctr_acpkm adding (ctr_acpkm adding input key iv 16) key iv 16 ≡ input)
ctr_acpkm-ctr_acpkm_example = ctr_acpkm-ctr_acpkm adding input key iv 16 refl

omac-append_example : omac adding key (iv ++ input) ≡ omac2 adding key iv input
omac-append_example = omac-append adding iv input key

kimp15-kexp15_example :
    kimp15 adding (kexp15 adding key (9 ∷ []) (7 ∷ []) iv) (9 ∷ []) (7 ∷ []) iv ≡ some key
kimp15-kexp15_example = kimp15-kexp15 adding key (9 ∷ []) (7 ∷ []) iv refl refl

abbrev exported : List ℕ
exported = kexp15 adding key (9 ∷ []) (7 ∷ []) iv

length-exported : length exported ≡ 48
unfolding kexp15
length-exported = refl

kexp15-kimp15_example : kexp15 adding key (9 ∷ []) (7 ∷ []) iv ≡ exported
kexp15-kimp15_example =
    kexp15-kimp15 adding exported key (9 ∷ []) (7 ∷ []) iv length-exported refl
      kimp15-kexp15_example
