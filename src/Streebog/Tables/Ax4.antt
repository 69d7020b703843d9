-- ===== src/Streebog/Tables/Ax4.antt =====
-- The table `Ax[4]` of src/generic/streebog_generic.c.
use Prim.Native.Nat.{ℕ}
use mathlib.Core.List.{List, [], ◌∷◌}

abbrev pub ax4 : List ℕ
ax4 =
    0x190a2c9b249df23e ∷ 0x2f62f8b62263e1e9 ∷ 0x7a7f754740993655 ∷ 0x330b7ba4d5564d9f
    ∷ 0x4c17a16a46672582 ∷ 0xb22f08eb7d05f5b8 ∷ 0x535f47f40bc148cc ∷ 0x3aec5d27d4883037
    ∷ 0x10ed0a1825438f96 ∷ 0x516101f72c233d17 ∷ 0x13cc6f949fd04eae ∷ 0x739853c441474bfd
    ∷ 0x653793d90d3f5b1b ∷ 0x5240647b96b0fc2f ∷ 0x0c84890ad27623e0 ∷ 0xd7189b32703aaea3
    ∷ 0x2685de3523bd9c41 ∷ 0x99317c5b11bffefa ∷ 0x0d9baa854f079703 ∷ 0x70b93648fbd48ac5
    ∷ 0xa80441fce30bc6be ∷ 0x7287704bdc36ff1e ∷ 0xb65384ed33dc1f13 ∷ 0xd36417343ee34408
    ∷ 0x39cd38ab6e1bf10f ∷ 0x5ab861770a1f3564 ∷ 0x0ebacf09f594563b ∷ 0xd04572b884708530
    ∷ 0x3cae9722bdb3af47 ∷ 0x4a556b6f2f5cbaf2 ∷ 0xe1704f1f76c4bd74 ∷ 0x5ec4ed7144c6dfcf
    ∷ 0x16afc01d4c7810e6 ∷ 0x283f113cd629ca7a ∷ 0xaf59a8761741ed2d ∷ 0xeed5a3991e215fac
    ∷ 0x3bf37ea849f984d4 ∷ 0xe413e096a56ce33c ∷ 0x2c439d3a98f020d1 ∷ 0x637559dc6404c46b
    ∷ 0x9e6c95d1e5f5d569 ∷ 0x24bb9836045fe99a ∷ 0x44efa466dac8ecc9 ∷ 0xc6eab2a5c80895d6
    ∷ 0x803b50c035220cc4 ∷ 0x0321658cba93c138 ∷ 0x8f9ebc465dc7ee1c ∷ 0xd15a5137190131d3
    ∷ 0x0fa5ec8668e5e2d8 ∷ 0x91c979578d1037b1 ∷ 0x0642ca05693b9f70 ∷ 0xefca80168350eb4f
    ∷ 0x38d21b24f36a45ec ∷ 0xbeab81e1af73d658 ∷ 0x8cbfd9cae7542f24 ∷ 0xfd19cc0d81f11102
    ∷ 0x0ac6430fbb4dbc90 ∷ 0x1d76a09d6a441895 ∷ 0x2a01573ff1cbbfa1 ∷ 0xb572e161894fde2b
    ∷ 0x8124734fa853b827 ∷ 0x614b1fdf43e6b1b0 ∷ 0x68ac395c4238cc18 ∷ 0x21d837bfd7f7b7d2
    ∷ 0x20c714304a860331 ∷ 0x5cfaab726324aa14 ∷ 0x74c5ba4eb50d606e ∷ 0xf3a3030474654739
    ∷ 0x23e671bcf015c209 ∷ 0x45f087e947b9582a ∷ 0xd8bd77b418df4c7b ∷ 0xe06f6c90ebb50997
    ∷ 0x0bd96080263c0873 ∷ 0x7e03f9410e40dcfe ∷ 0xb8e94be4c6484928 ∷ 0xfb5b0608e8ca8e72
    ∷ 0x1a2b49179e0e3306 ∷ 0x4e29e76961855059 ∷ 0x4f36c4e6fcf4e4ba ∷ 0x49740ee395cf7bca
    ∷ 0xc2963ea386d17f7d ∷ 0x90d65ad810618352 ∷ 0x12d34c1b02a1fa4d ∷ 0xfa44258775bb3a91
    ∷ 0x18150f14b9ec46dd ∷ 0x1491861e6b9a653d ∷ 0x9a1019d7ab2c3fc2 ∷ 0x3668d42d06fe13d7
    ∷ 0xdcc1fbb25606a6d0 ∷ 0x969490dd795a1c22 ∷ 0x3549b1a1bc6dd2ef ∷ 0xc94f5e23a0ed770e
    ∷ 0xb9f6686b5b39fdcb ∷ 0xc4d4f4a6efeae00d ∷ 0xe732851a1fff2204 ∷ 0x94aad6de5eb869f9
    ∷ 0x3f8ff2ae07206e7f ∷ 0xfe38a9813b62d03a ∷ 0xa7a1ad7a8bee2466 ∷ 0x7b6056c8dde882b6
    ∷ 0x302a1e286fc58ca7 ∷ 0x8da0fa457a259bc7 ∷ 0xb3302b64e074415b ∷ 0x5402ae7eff8b635f
    ∷ 0x08f8050c9cafc94b ∷ 0xae468bf98a3059ce ∷ 0x88c355cca98dc58f ∷ 0xb10e6d67c7963480
    ∷ 0xbad70de7e1aa3cf3 ∷ 0xbfb4a26e320262bb ∷ 0xcb711820870f02d5 ∷ 0xce12b7a954a75c9d
    ∷ 0x563ce87dd8691684 ∷ 0x9f73b65e7884618a ∷ 0x2b1e74b06cba0b42 ∷ 0x47cec1ea605b2df1
    ∷ 0x1c698312f735ac76 ∷ 0x5fdbcefed9b76b2c ∷ 0x831a354c8fb1cdfc ∷ 0x820516c312c0791f
    ∷ 0xb74ca762aeadabf0 ∷ 0xfc06ef821c80a5e1 ∷ 0x5723cbf24518a267 ∷ 0x9d4df05d5f661451
    ∷ 0x588627742dfd40bf ∷ 0xda8331b73f3d39a0 ∷ 0x17b0e392d109a405 ∷ 0xf965400bcf28fba9
    ∷ 0x7c3dbf4229a2a925 ∷ 0x023e460327e275db ∷ 0x6cd0b55a0ce126b3 ∷ 0xe62da695828e96e7
    ∷ 0x42ad6e63b3f373b9 ∷ 0xe50cc319381d57df ∷ 0xc5cbd729729b54ee ∷ 0x46d1e265fd2a9912
    ∷ 0x6428b056904eeff8 ∷ 0x8be23040131e04b7 ∷ 0x6709d5da2add2ec0 ∷ 0x075de98af44a2b93
    ∷ 0x8447dcc67bfbe66f ∷ 0x6616f655b7ac9a23 ∷ 0xd607b8bded4b1a40 ∷ 0x0563af89d3a85e48
    ∷ 0x3db1b4ad20c21ba4 ∷ 0x11f22997b8323b75 ∷ 0x292032b34b587e99 ∷ 0x7f1cdace9331681d
    ∷ 0x8e819fc9c0b65aff ∷ 0xa1e3677fe2d5bb16 ∷ 0xcd33d225ee349da5 ∷ 0xd9a2543b85aef898
    ∷ 0x795e10cbfa0af76d ∷ 0x25a4bbb9992e5d79 ∷ 0x78413344677b438e ∷ 0xf0826688cef68601
    ∷ 0xd27b34bba392f0eb ∷ 0x551d8df162fad7bc ∷ 0x1e57c511d0d7d9ad ∷ 0xdeffbdb171e4d30b
    ∷ 0xf4feea8e802f6caa ∷ 0xa480c8f6317de55e ∷ 0xa0fc44f07fa40ff5 ∷ 0x95b5f551c3c9dd1a
    ∷ 0x22f952336d6476ea ∷ 0x0000000000000000 ∷ 0xa6be8ef5169f9085 ∷ 0xcc2cf1aa73452946
    ∷ 0x2e7ddb39bf12550a ∷ 0xd526dd3157d8db78 ∷ 0x486b2d6c08becf29 ∷ 0x9b0f3a58365d8b21
    ∷ 0xac78cdfaadd22c15 ∷ 0xbc95c7e28891a383 ∷ 0x6a927f5f65dab9c3 ∷ 0xc3891d2c1ba0cb9e
    ∷ 0xeaa92f9f50f8b507 ∷ 0xcf0d9426c9d6e87e ∷ 0xca6e3baf1a7eb636 ∷ 0xab25247059980786
    ∷ 0x69b31ad3df4978fb ∷ 0xe2512a93cc577c4c ∷ 0xff278a0ea61364d9 ∷ 0x71a615c766a53e26
    ∷ 0x89dc764334fc716c ∷ 0xf87a638452594f4a ∷ 0xf2bc208be914f3da ∷ 0x8766b94ac1682757
    ∷ 0xbbc82e687cdb8810 ∷ 0x626a7a53f9757088 ∷ 0xa2c202f358467a2e ∷ 0x4d0882e5db169161
    ∷ 0x09e7268301de7da8 ∷ 0xe897699c771ac0dc ∷ 0xc8507dac3d9cc3ed ∷ 0xc0a878a0a1330aa6
    ∷ 0x978bb352e42ba8c1 ∷ 0xe9884a13ea6b743f ∷ 0x279afdbabecc28a2 ∷ 0x047c8c064ed9eaab
    ∷ 0x507e2278b15289f4 ∷ 0x599904fbb08cf45c ∷ 0xbd8ae46d15e01760 ∷ 0x31353da7f2b43844
    ∷ 0x8558ff49e68a528c ∷ 0x76fbfc4d92ef15b5 ∷ 0x3456922e211c660c ∷ 0x86799ac55c1993b4
    ∷ 0x3e90d1219a51da9c ∷ 0x2d5cbeb505819432 ∷ 0x982e5fd48cce4a19 ∷ 0xdb9c1238a24c8d43
    ∷ 0xd439febecaa96f9b ∷ 0x418c0bef0960b281 ∷ 0x158ea591f6ebd1de ∷ 0x1f48e69e4da66d4e
    ∷ 0x8afd13cf8e6fb054 ∷ 0xf5e1c9011d5ed849 ∷ 0xe34e091c5126c8af ∷ 0xad67ee7530a398f6
    ∷ 0x43b24dec2e82c75a ∷ 0x75da99c1287cd48d ∷ 0x92e81cdb3783f689 ∷ 0xa3dd217cc537cecd
    ∷ 0x60543c50de970553 ∷ 0x93f73f54aaf2426a ∷ 0xa91b62737e7a725d ∷ 0xf19d4507538732e2
    ∷ 0x77e4dfc20f9ea156 ∷ 0x7d229ccdb4d31dc6 ∷ 0x1b346a98037f87e5 ∷ 0xedf4c615a4b29e94
    ∷ 0x4093286094110662 ∷ 0xb0114ee85ae78063 ∷ 0x6ff1d0d6b672e78b ∷ 0x6dcf96d591909250
    ∷ 0xdfe09e3eec9567e8 ∷ 0x3214582b4827f97c ∷ 0xb46dc2ee143e6ac8 ∷ 0xf6c0ac8da7cd1971
    ∷ 0xebb60c10cd8901e4 ∷ 0xf7df8f023abcad92 ∷ 0x9c52d3d2c217a0b2 ∷ 0x6b8d5cd0f8ab0d20
    ∷ 0x3777f7a29b8fa734 ∷ 0x011f238f9d71b4e3 ∷ 0xc1b75b2f3c42be45 ∷ 0x5de588fdfe551ef7
    ∷ 0x6eeef3592b035368 ∷ 0xaa3a07ffc4e9b365 ∷ 0xecebe59a39c32a77 ∷ 0x5ba742f8976e8187
    ∷ 0x4b4a48e0b22d0e11 ∷ 0xddded83dcb771233 ∷ 0xa59feb79ac0c51bd ∷ 0xc7f5912a55792135 ∷ []
