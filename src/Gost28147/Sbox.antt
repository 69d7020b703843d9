-- ===== src/Gost28147/Sbox.antt =====
-- The substitution boxes and the key-meshing constant of src/generic/gost28147_generic.c.
use Prim.Native.Nat.{ℕ}
use mathlib.Core.List.{List, [], ◌∷◌}

abbrev pub sbox_cryptopro_a : List (List ℕ)
sbox_cryptopro_a =
    (0xb ∷ 0xa ∷ 0xf ∷ 0x5 ∷ 0x0 ∷ 0xc ∷ 0xe ∷ 0x8 ∷ 0x6 ∷ 0x2 ∷ 0x3 ∷ 0x9 ∷ 0x1 ∷ 0x7 ∷ 0xd ∷ 0x4
      ∷ [])
    ∷ (0x1 ∷ 0xd ∷ 0x2 ∷ 0x9 ∷ 0x7 ∷ 0xa ∷ 0x6 ∷ 0x0 ∷ 0x8 ∷ 0xc ∷ 0x4 ∷ 0x5 ∷ 0xf ∷ 0x3 ∷ 0xb ∷ 0xe
        ∷ [])
    ∷ (0x3 ∷ 0xa ∷ 0xd ∷ 0xc ∷ 0x1 ∷ 0x2 ∷ 0x0 ∷ 0xb ∷ 0x7 ∷ 0x5 ∷ 0x9 ∷ 0x4 ∷ 0x8 ∷ 0xf ∷ 0xe ∷ 0x6
        ∷ [])
    ∷ (0xb ∷ 0x5 ∷ 0x1 ∷ 0x9 ∷ 0x8 ∷ 0xd ∷ 0xf ∷ 0x0 ∷ 0xe ∷ 0x4 ∷ 0x2 ∷ 0x3 ∷ 0xc ∷ 0x7 ∷ 0xa ∷ 0x6
        ∷ [])
    ∷ (0xe ∷ 0x7 ∷ 0xa ∷ 0xc ∷ 0xd ∷ 0x1 ∷ 0x3 ∷ 0x9 ∷ 0x0 ∷ 0x2 ∷ 0xb ∷ 0x4 ∷ 0xf ∷ 0x8 ∷ 0x5 ∷ 0x6
        ∷ [])
    ∷ (0xe ∷ 0x4 ∷ 0x6 ∷ 0x2 ∷ 0xb ∷ 0x3 ∷ 0xd ∷ 0x8 ∷ 0xc ∷ 0xf ∷ 0x5 ∷ 0xa ∷ 0x0 ∷ 0x7 ∷ 0x1 ∷ 0x9
        ∷ [])
    ∷ (0x3 ∷ 0x7 ∷ 0xe ∷ 0x9 ∷ 0x8 ∷ 0xa ∷ 0xf ∷ 0x0 ∷ 0x5 ∷ 0x2 ∷ 0x6 ∷ 0xc ∷ 0xb ∷ 0x4 ∷ 0xd ∷ 0x1
        ∷ [])
    ∷ (0x9 ∷ 0x6 ∷ 0x3 ∷ 0x2 ∷ 0x8 ∷ 0xb ∷ 0x1 ∷ 0x7 ∷ 0xa ∷ 0x4 ∷ 0xe ∷ 0xf ∷ 0xc ∷ 0x0 ∷ 0xd ∷ 0x5
        ∷ [])
    ∷ []

abbrev pub sbox_cryptopro_3411 : List (List ℕ)
sbox_cryptopro_3411 =
    (0x1 ∷ 0x3 ∷ 0xa ∷ 0x9 ∷ 0x5 ∷ 0xb ∷ 0x4 ∷ 0xf ∷ 0x8 ∷ 0x6 ∷ 0x7 ∷ 0xe ∷ 0xd ∷ 0x0 ∷ 0x2 ∷ 0xc
      ∷ [])
    ∷ (0xd ∷ 0xe ∷ 0x4 ∷ 0x1 ∷ 0x7 ∷ 0x0 ∷ 0x5 ∷ 0xa ∷ 0x3 ∷ 0xc ∷ 0x8 ∷ 0xf ∷ 0x6 ∷ 0x2 ∷ 0x9 ∷ 0xb
        ∷ [])
    ∷ (0x7 ∷ 0x6 ∷ 0x2 ∷ 0x4 ∷ 0xd ∷ 0x9 ∷ 0xf ∷ 0x0 ∷ 0xa ∷ 0x1 ∷ 0x5 ∷ 0xb ∷ 0x8 ∷ 0xe ∷ 0xc ∷ 0x3
        ∷ [])
    ∷ (0x7 ∷ 0x6 ∷ 0x4 ∷ 0xb ∷ 0x9 ∷ 0xc ∷ 0x2 ∷ 0xa ∷ 0x1 ∷ 0x8 ∷ 0x0 ∷ 0xe ∷ 0xf ∷ 0xd ∷ 0x3 ∷ 0x5
        ∷ [])
    ∷ (0x4 ∷ 0xa ∷ 0x7 ∷ 0xc ∷ 0x0 ∷ 0xf ∷ 0x2 ∷ 0x8 ∷ 0xe ∷ 0x1 ∷ 0x6 ∷ 0x5 ∷ 0xd ∷ 0xb ∷ 0x9 ∷ 0x3
        ∷ [])
    ∷ (0x7 ∷ 0xf ∷ 0xc ∷ 0xe ∷ 0x9 ∷ 0x4 ∷ 0x1 ∷ 0x0 ∷ 0x3 ∷ 0xb ∷ 0x5 ∷ 0x2 ∷ 0x6 ∷ 0xa ∷ 0x8 ∷ 0xd
        ∷ [])
    ∷ (0x5 ∷ 0xf ∷ 0x4 ∷ 0x0 ∷ 0x2 ∷ 0xd ∷ 0xb ∷ 0x9 ∷ 0x1 ∷ 0x7 ∷ 0x6 ∷ 0x3 ∷ 0xc ∷ 0xe ∷ 0xa ∷ 0x8
        ∷ [])
    ∷ (0xa ∷ 0x4 ∷ 0x5 ∷ 0x6 ∷ 0x8 ∷ 0x1 ∷ 0x3 ∷ 0x7 ∷ 0xd ∷ 0xc ∷ 0xe ∷ 0x0 ∷ 0x9 ∷ 0x2 ∷ 0xb ∷ 0xf
        ∷ [])
    ∷ []

abbrev pub sbox_tc26_z : List (List ℕ)
sbox_tc26_z =
    (0x1 ∷ 0x7 ∷ 0xe ∷ 0xd ∷ 0x0 ∷ 0x5 ∷ 0x8 ∷ 0x3 ∷ 0x4 ∷ 0xf ∷ 0xa ∷ 0x6 ∷ 0x9 ∷ 0xc ∷ 0xb ∷ 0x2
      ∷ [])
    ∷ (0x8 ∷ 0xe ∷ 0x2 ∷ 0x5 ∷ 0x6 ∷ 0x9 ∷ 0x1 ∷ 0xc ∷ 0xf ∷ 0x4 ∷ 0xb ∷ 0x0 ∷ 0xd ∷ 0xa ∷ 0x3 ∷ 0x7
        ∷ [])
    ∷ (0x5 ∷ 0xd ∷ 0xf ∷ 0x6 ∷ 0x9 ∷ 0x2 ∷ 0xc ∷ 0xa ∷ 0xb ∷ 0x7 ∷ 0x8 ∷ 0x1 ∷ 0x4 ∷ 0x3 ∷ 0xe ∷ 0x0
        ∷ [])
    ∷ (0x7 ∷ 0xf ∷ 0x5 ∷ 0xa ∷ 0x8 ∷ 0x1 ∷ 0x6 ∷ 0xd ∷ 0x0 ∷ 0x9 ∷ 0x3 ∷ 0xe ∷ 0xb ∷ 0x4 ∷ 0x2 ∷ 0xc
        ∷ [])
    ∷ (0xc ∷ 0x8 ∷ 0x2 ∷ 0x1 ∷ 0xd ∷ 0x4 ∷ 0xf ∷ 0x6 ∷ 0x7 ∷ 0x0 ∷ 0xa ∷ 0x5 ∷ 0x3 ∷ 0xe ∷ 0x9 ∷ 0xb
        ∷ [])
    ∷ (0xb ∷ 0x3 ∷ 0x5 ∷ 0x8 ∷ 0x2 ∷ 0xf ∷ 0xa ∷ 0xd ∷ 0xe ∷ 0x1 ∷ 0x7 ∷ 0x4 ∷ 0xc ∷ 0x9 ∷ 0x6 ∷ 0x0
        ∷ [])
    ∷ (0x6 ∷ 0x8 ∷ 0x2 ∷ 0x3 ∷ 0x9 ∷ 0xa ∷ 0x5 ∷ 0xc ∷ 0x1 ∷ 0xe ∷ 0x4 ∷ 0x7 ∷ 0xb ∷ 0xd ∷ 0x0 ∷ 0xf
        ∷ [])
    ∷ (0xc ∷ 0x4 ∷ 0x6 ∷ 0x2 ∷ 0xa ∷ 0x5 ∷ 0xb ∷ 0x9 ∷ 0xe ∷ 0x8 ∷ 0xd ∷ 0x7 ∷ 0x0 ∷ 0x3 ∷ 0xf ∷ 0x1
        ∷ [])
    ∷ []

abbrev pub key_mesh_key : List ℕ
key_mesh_key =
    0x69 ∷ 0x00 ∷ 0x72 ∷ 0x22 ∷ 0x64 ∷ 0xc9 ∷ 0x04 ∷ 0x23 ∷ 0x8d ∷ 0x3a ∷ 0xdb ∷ 0x96 ∷ 0x46 ∷ 0xe9
    ∷ 0x2a ∷ 0xc4 ∷ 0x18 ∷ 0xfe ∷ 0xac ∷ 0x94 ∷ 0x00 ∷ 0xed ∷ 0x07 ∷ 0x12 ∷ 0xc0 ∷ 0x86 ∷ 0xdc
    ∷ 0xc2 ∷ 0xef ∷ 0x4c ∷ 0xa9 ∷ 0x2b ∷ []
