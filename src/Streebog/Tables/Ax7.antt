-- ===== src/Streebog/Tables/Ax7.antt =====
-- The table `Ax[7]` of src/generic/streebog_generic.c.
use Prim.Native.Nat.{ℕ}
use mathlib.Core.List.{List, [], ◌∷◌}

abbrev pub ax7 : List ℕ
ax7 =
    0xe63f55ce97c331d0 ∷ 0x25b506b0015bba16 ∷ 0xc8706e29e6ad9ba8 ∷ 0x5b43d3775d521f6a
    ∷ 0x0bfa3d577035106e ∷ 0xab95fc172afb0e66 ∷ 0xf64b63979e7a3276 ∷ 0xf58b4562649dad4b
    ∷ 0x48f7c3dbae0c83f1 ∷ 0xff31916642f5c8c5 ∷ 0xcbb048dc1c4a0495 ∷ 0x66b8f83cdf622989
    ∷ 0x35c130e908e2b9b0 ∷ 0x7c761a61f0b34fa1 ∷ 0x3601161cf205268d ∷ 0x9e54ccfe2219b7d6
    ∷ 0x8b7d90a538940837 ∷ 0x9cd403588ea35d0b ∷ 0xbc3c6fea9ccc5b5a ∷ 0xe5ff733b6d24aeed
    ∷ 0xceed22de0f7eb8d2 ∷ 0xec8581cab1ab545e ∷ 0xb96105e88ff8e71d ∷ 0x8ca03501871a5ead
    ∷ 0x76ccce65d6db2a2f ∷ 0x5883f582a7b58057 ∷ 0x3f7be4ed2e8adc3e ∷ 0x0fe7be06355cd9c9
    ∷ 0xee054e6c1d11be83 ∷ 0x1074365909b903a6 ∷ 0x5dde9f80b4813c10 ∷ 0x4a770c7d02b6692c
    ∷ 0x5379c8d5d7809039 ∷ 0xb4067448161ed409 ∷ 0x5f5e5026183bd6cd ∷ 0xe898029bf4c29df9
    ∷ 0x7fb63c940a54d09c ∷ 0xc5171f897f4ba8bc ∷ 0xa6f28db7b31d3d72 ∷ 0x2e4f3be7716eaa78
    ∷ 0x0d6771a099e63314 ∷ 0x82076254e41bf284 ∷ 0x2f0fd2b42733df98 ∷ 0x5c9e76d3e2dc49f0
    ∷ 0x7aeb569619606cdb ∷ 0x83478b07b2468764 ∷ 0xcfadcb8d5923cd32 ∷ 0x85dac7f05b95a41e
    ∷ 0xb5469d1b4043a1e9 ∷ 0xb821ecbbd9a592fd ∷ 0x1b8e0b0e798c13c8 ∷ 0x62a57b6d9a0be02e
    ∷ 0xfcf1b793b81257f8 ∷ 0x9d94ea0bd8fe28eb ∷ 0x4cea408aeb654a56 ∷ 0x23284a47e888996c
    ∷ 0x2d8f1d128b893545 ∷ 0xf4cbac3132c0d8ab ∷ 0xbd7c86b9ca912eba ∷ 0x3a268eef3dbe6079
    ∷ 0xf0d62f6077a9110c ∷ 0x2735c916ade150cb ∷ 0x89fd5f03942ee2ea ∷ 0x1acee25d2fd16628
    ∷ 0x90f39bab41181bff ∷ 0x430dfe8cde39939f ∷ 0xf70b8ac4c8274796 ∷ 0x1c53aeaac6024552
    ∷ 0x13b410acf35e9c9b ∷ 0xa532ab4249faa24f ∷ 0x2b1251e5625a163f ∷ 0xd7e3e676da4841c7
    ∷ 0xa7b264e4e5404892 ∷ 0xda8497d643ae72d3 ∷ 0x861ae105a1723b23 ∷ 0x38a6414991048aa4
    ∷ 0x6578dec92585b6b4 ∷ 0x0280cfa6acbaeadd ∷ 0x88bdb650c273970a ∷ 0x9333bd5ebbff84c2
    ∷ 0x4e6a8f2c47dfa08b ∷ 0x321c954db76cef2a ∷ 0x418d312a72837942 ∷ 0xb29b38bfffcdf773
    ∷ 0x6c022c38f90a4c07 ∷ 0x5a033a240b0f6a8a ∷ 0x1f93885f3ce5da6f ∷ 0xc38a537e96988bc6
    ∷ 0x39e6a81ac759ff44 ∷ 0x29929e43cee0fce2 ∷ 0x40cdd87924de0ca2 ∷ 0xe9d8ebc8a29fe819
    ∷ 0x0c2798f3cfbb46f4 ∷ 0x55e484223e53b343 ∷ 0x4650948ecd0d2fd8 ∷ 0x20e86cb2126f0651
    ∷ 0x6d42c56baf5739e7 ∷ 0xa06fc1405ace1e08 ∷ 0x7babbfc54f3d193b ∷ 0x424d17df8864e67f
    ∷ 0xd8045870ef14980e ∷ 0xc6d7397c85ac3781 ∷ 0x21a885e1443273b1 ∷ 0x67f8116f893f5c69
    ∷ 0x24f5efe35706cff6 ∷ 0xd56329d076f2ab1a ∷ 0x5e1eb9754e66a32d ∷ 0x28d2771098bd8902
    ∷ 0x8f6013f47dfdc190 ∷ 0x17a993fdb637553c ∷ 0xe0a219397e1012aa ∷ 0x786b9930b5da8606
    ∷ 0x6e82e39e55b0a6da ∷ 0x875a0856f72f4ec3 ∷ 0x3741ff4fa458536d ∷ 0xac4859b3957558fc
    ∷ 0x7ef6d5c75c09a57c ∷ 0xc04a758b6c7f14fb ∷ 0xf9acdd91ab26ebbf ∷ 0x7391a467c5ef9668
    ∷ 0x335c7c1ee1319aca ∷ 0xa91533b18641e4bb ∷ 0xe4bf9a683b79db0d ∷ 0x8e20faa72ba0b470
    ∷ 0x51f907737b3a7ae4 ∷ 0x2268a314bed5ec8c ∷ 0xd944b123b949edee ∷ 0x31dcb3b84d8b7017
    ∷ 0xd3fe65279f218860 ∷ 0x097af2f1dc8ffab3 ∷ 0x9b09a6fc312d0b91 ∷ 0xcc6ded78a3c4520f
    ∷ 0x3481d9ba5ebfcc50 ∷ 0x4f2a667f1182d56b ∷ 0xdfd9fdd4509ace94 ∷ 0x26752045fbbc252b
    ∷ 0xbffc491f662bc467 ∷ 0xdd593272fc202449 ∷ 0x3cbbc218d46d4303 ∷ 0x91b372f817456e1f
    ∷ 0x681faf69bc6385a0 ∷ 0xb686bbeebaa43ed4 ∷ 0x1469b5084cd0ca01 ∷ 0x98c98009cbca94ac
    ∷ 0x6438379a73d8c354 ∷ 0xc2caba2dc0c5fe26 ∷ 0x3e3b0dbe78d7a9de ∷ 0x50b9ee202d670f04
    ∷ 0x4590b27b37eab0e5 ∷ 0x6025b4cb36b10af3 ∷ 0xfb2c1237079c0162 ∷ 0xa12f28130c936be8
    ∷ 0x4b37e52e54eb1ccc ∷ 0x083a1ba28ad28f53 ∷ 0xc10a9cd83a22611b ∷ 0x9f1425ad7444c236
    ∷ 0x069d4cf7e9d3237a ∷ 0xedc56899e7f621be ∷ 0x778c273680865fcf ∷ 0x309c5aeb1bd605f7
    ∷ 0x8de0dc52d1472b4d ∷ 0xf8ec34c2fd7b9e5f ∷ 0xea18cd3d58787724 ∷ 0xaad515447ca67b86
    ∷ 0x9989695a9d97e14c ∷ 0x0000000000000000 ∷ 0xf196c63321f464ec ∷ 0x71116bc169557cb5
    ∷ 0xaf887f466f92c7c1 ∷ 0x972e3e0ffe964d65 ∷ 0x190ec4a8d536f915 ∷ 0x95aef1a9522ca7b8
    ∷ 0xdc19db21aa7d51a9 ∷ 0x94ee18fa0471d258 ∷ 0x8087adf248a11859 ∷ 0xc457f6da2916dd5c
    ∷ 0xfa6cfb6451c17482 ∷ 0xf256e0c6db13fbd1 ∷ 0x6a9f60cf10d96f7d ∷ 0x4daaa9d9bd383fb6
    ∷ 0x03c026f5fae79f3d ∷ 0xde99148706c7bb74 ∷ 0x2a52b8b6340763df ∷ 0x6fc20acd03edd33a
    ∷ 0xd423c08320afdefa ∷ 0xbbe1ca4e23420dc0 ∷ 0x966ed75ca8cb3885 ∷ 0xeb58246e0e2502c4
    ∷ 0x055d6a021334bc47 ∷ 0xa47242111fa7d7af ∷ 0xe3623fcc84f78d97 ∷ 0x81c744a11efc6db9
    ∷ 0xaec8961539cfb221 ∷ 0xf31609958d4e8e31 ∷ 0x63e5923ecc5695ce ∷ 0x47107ddd9b505a38
    ∷ 0xa3afe7b5a0298135 ∷ 0x792b7063e387f3e6 ∷ 0x0140e953565d75e0 ∷ 0x12f4f9ffa503e97b
    ∷ 0x750ce8902c3cb512 ∷ 0xdbc47e8515f30733 ∷ 0x1ed3610c6ab8af8f ∷ 0x5239218681dde5d9
    ∷ 0xe222d69fd2aaf877 ∷ 0xfe71783514a8bd25 ∷ 0xcaf0a18f4a177175 ∷ 0x61655d9860ec7f13
    ∷ 0xe77fbc9dc19e4430 ∷ 0x2ccff441ddd440a5 ∷ 0x16e97aaee06a20dc ∷ 0xa855dae2d01c915b
    ∷ 0x1d1347f9905f30b2 ∷ 0xb7c652bdecf94b34 ∷ 0xd03e43d265c6175d ∷ 0xfdb15ec0ee4f2218
    ∷ 0x57644b8492e9599e ∷ 0x07dda5a4bf8e569a ∷ 0x54a46d71680ec6a3 ∷ 0x5624a2d7c4b42c7e
    ∷ 0xbebca04c3076b187 ∷ 0x7d36f332a6ee3a41 ∷ 0x3b6667bc6be31599 ∷ 0x695f463aea3ef040
    ∷ 0xad08b0e0c3282d1c ∷ 0xb15b1e4a052a684e ∷ 0x44d05b2861b7c505 ∷ 0x15295c5b1a8dbfe1
    ∷ 0x744c01c37a61c0f2 ∷ 0x59c31cd1f1e8f5b7 ∷ 0xef45a73f4b4ccb63 ∷ 0x6bdf899c46841a9d
    ∷ 0x3dfb2b4b823036e3 ∷ 0xa2ef0ee6f674f4d5 ∷ 0x184e2dfb836b8cf5 ∷ 0x1134df0a5fe47646
    ∷ 0xbaa1231d751f7820 ∷ 0xd17eaa81339b62bd ∷ 0xb01bf71953771dae ∷ 0x849a2ea30dc8d1fe
    ∷ 0x705182923f080955 ∷ 0x0ea757556301ac29 ∷ 0x041d83514569c9a7 ∷ 0x0abad4042668658e
    ∷ 0x49b72a88f851f611 ∷ 0x8a3d79f66ec97dd7 ∷ 0xcd2d042bf59927ef ∷ 0xc930877ab0f0ee48
    ∷ 0x9273540deda2f122 ∷ 0xc797d02fd3f14261 ∷ 0xe1e2f06a284d674a ∷ 0xd2be8c74c97cfd80
    ∷ 0x9a494faf67707e71 ∷ 0xb3dbd1eca9908293 ∷ 0x72d14d3493b2e388 ∷ 0xd6a30f258c153427 ∷ []
