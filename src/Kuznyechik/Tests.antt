-- ===== src/Kuznyechik/Tests.antt =====
-- Tests of the cipher. The tables of the witnesses are calculated from the linear map, and rows of
-- src/generic/kuztable.h are compared with it.
use libpogost.Base.{
  ℕ, ◌≡◌, refl, true, some, List, [], ◌∷◌, ◌++◌, arith, length, get_or, replicate, Below,
  Below-append, Below-replicate,
}
use mathlib.Core.Path.{subst}
use mathlib.Core.Option.{some-injective}
use libpogost.Kuznyechik.Data.{kuz_key_table}
use libpogost.Kuznyechik.{Tables, State, pi, pi_inv, setkey, generic_setkey, encrypt, decrypt}
use libpogost.Kuznyechik.Field.{weighted}
use libpogost.Kuznyechik.Linear.{linear, linear_inv}
use libpogost.Kuznyechik.Rounds.{unit, IsTables}
use libpogost.Kuznyechik.Schedule.{decrypt-encrypt}
use libpogost.KuznyechikModes.Mgm.{mgm_encrypt, mgm_decrypt}
use libpogost.KuznyechikModes.Mgm.Sealed.{mgm_decrypt-mgm_encrypt}
use libpogost.Kuznyechik.Interface.{kuznyechik, kuznyechik_lem}
use libpogost.Kuznyechik.Simd.{simd_setkey}
use libpogost.Kuznyechik.Simd.Same.{simd_setkey-generic_setkey}

abbrev tables : Tables
tables = record {
  table = λ i x. linear (unit i (pi x));
  table_inv = λ i x. linear_inv (unit i x);
  table_inv_ls = λ i x. linear_inv (unit i (pi_inv x));
}

tables-IsTables : IsTables tables
tables-IsTables = record {
  rows = λ i x h k. refl;
  rows_inv = λ i x h k. refl;
  rows_inv_ls = λ i x h k. refl;
}

-- Rows of the three tables for the last byte of a block, with the value 1.
table_test :
    linear (unit 15 (pi 1))
    ≡ (8 ∷ 224 ∷ 140 ∷ 178 ∷ 23 ∷ 26 ∷ 206 ∷ 123 ∷ 50 ∷ 252 ∷ 171 ∷ 248 ∷ 254 ∷ 242 ∷ 10 ∷ 238 ∷ [])
unfolding linear weighted pi
table_test = refl

table_inv_test : linear_inv (unit 15 1) ≡ (
    148 ∷ 132 ∷ 221 ∷ 16 ∷ 189 ∷ 39 ∷ 93 ∷ 184 ∷ 122 ∷ 72 ∷ 108 ∷ 114 ∷ 118 ∷ 162 ∷ 110 ∷ 207 ∷ [])
unfolding linear_inv weighted
table_inv_test = refl

table_inv_ls_test : linear_inv (unit 15 (pi_inv 1)) ≡ (
    3 ∷ 150 ∷ 148 ∷ 149 ∷ 108 ∷ 42 ∷ 182 ∷ 245 ∷ 156 ∷ 186 ∷ 231 ∷ 55 ∷ 131 ∷ 145 ∷ 189 ∷ 91 ∷ [])
unfolding linear_inv weighted pi_inv
table_inv_ls_test = refl

-- The constant of a round is the image of its number.
constants_test : linear (unit 15 7) ≡ get_or kuz_key_table 6 []
unfolding linear weighted
constants_test = refl

abbrev key : List ℕ
key = replicate 31 0x5a ++ (255 ∷ [])

key-Below : Below 256 key
key-Below =
    Below-append 256 (replicate 31 0x5a) (255 ∷ []) (Below-replicate 256 31 0x5a (omega arith))
      (omega arith, tt)

abbrev block : List ℕ
block = 0x11 ∷ 0x22 ∷ replicate 14 0x77

block-Below : Below 256 block
block-Below = (omega arith, (omega arith, Below-replicate 256 14 0x77 (omega arith)))

decrypt-encrypt_example :
    (st : State) × (setkey tables true (some key) ≡ some st)
    × (decrypt tables st (encrypt tables st block) ≡ block)
decrypt-encrypt_example =
    decrypt-encrypt tables tables-IsTables key block refl key-Below (refl, block-Below)

key_read : (k : List ℕ) → some key ≡ some k → (length k ≡ 32) × Below 256 k
key_read k h = subst (λ t. (length t ≡ 32) × Below 256 t) (some-injective _ _ h) (refl, key-Below)

simd_setkey-generic_setkey_example :
    simd_setkey tables true (some key) ≡ generic_setkey tables true (some key)
simd_setkey-generic_setkey_example =
    simd_setkey-generic_setkey tables tables-IsTables true (some key) key_read

-- The modes over this cipher: a message sealed with MGM is opened again.
mgm_test :
    let E = kuznyechik tables tables-IsTables in
    let sealed = mgm_encrypt E key (replicate 16 3) (1 ∷ []) (9 ∷ 8 ∷ 7 ∷ []) in
    (length sealed.0 ≡ 3)
    × (length sealed.1 ≡ 16)
    × (mgm_decrypt E key (replicate 16 3) (1 ∷ []) sealed.0 sealed.1 ≡ some (9 ∷ 8 ∷ 7 ∷ []))
mgm_test =
    mgm_decrypt-mgm_encrypt (kuznyechik tables tables-IsTables) key (replicate 16 3) (1 ∷ [])
      (9 ∷ 8 ∷ 7 ∷ []) refl

cipher_test :
    let ctx = (kuznyechik tables tables-IsTables).setkey key in
    (setkey tables true (some key) ≡ some ctx.0)
    × ((kuznyechik tables tables-IsTables).encrypt ctx block ≡ encrypt tables ctx.0 block)
cipher_test = kuznyechik_lem tables tables-IsTables key block (refl, key-Below) (refl, block-Below)
