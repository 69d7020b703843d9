-- ===== src/Streebog/Tables/Ax2.antt =====
-- The table `Ax[2]` of src/generic/streebog_generic.c.
use Prim.Native.Nat.{ℕ}
use mathlib.Core.List.{List, [], ◌∷◌}

abbrev pub ax2 : List ℕ
ax2 =
    0xcce4cd3aa968b245 ∷ 0x089d5484e80b7faf ∷ 0x638246c1b3548304 ∷ 0xd2fe0ec8c2355492
    ∷ 0xa7fbdf7ff2374eee ∷ 0x4df1600c92337a16 ∷ 0x84e503ea523b12fb ∷ 0x0790bbfd53ab0c4a
    ∷ 0x198a780f38f6ea9d ∷ 0x2ab30c8f55ec48cb ∷ 0xe0f7fed6b2c49db5 ∷ 0xb6ecf3f422cadbdc
    ∷ 0x409c9a541358df11 ∷ 0xd3ce8a56dfde3fe3 ∷ 0xc3e9224312c8c1a0 ∷ 0x0d6dfa58816ba507
    ∷ 0xddf3e1b179952777 ∷ 0x04c02a42748bb1d9 ∷ 0x94c2abff9f2decb8 ∷ 0x4f91752da8f8acf4
    ∷ 0x78682befb169bf7b ∷ 0xe1c77a48af2ff6c4 ∷ 0x0c5d7ec69c80ce76 ∷ 0x4cc1e4928fd81167
    ∷ 0xfeed3d24d9997b62 ∷ 0x518bb6dfc3a54a23 ∷ 0x6dbf2d26151f9b90 ∷ 0xb5bc624b05ea664f
    ∷ 0xe86aaa525acfe21a ∷ 0x4801ced0fb53a0be ∷ 0xc91463e6c00868ed ∷ 0x1027a815cd16fe43
    ∷ 0xf67069a0319204cd ∷ 0xb04ccc976c8abce7 ∷ 0xc0b9b3fc35e87c33 ∷ 0xf380c77c58f2de65
    ∷ 0x50bb3241de4e2152 ∷ 0xdf93f490435ef195 ∷ 0xf1e0d25d62390887 ∷ 0xaf668bfb1a3c3141
    ∷ 0xbc11b251f00a7291 ∷ 0x73a5eed47e427d47 ∷ 0x25bee3f6ee4c3b2e ∷ 0x43cc0beb34786282
    ∷ 0xc824e778dde3039c ∷ 0xf97d86d98a327728 ∷ 0xf2b043e24519b514 ∷ 0xe297ebf7880f4b57
    ∷ 0x3a94a49a98fab688 ∷ 0x868516cb68f0c419 ∷ 0xeffa11af0964ee50 ∷ 0xa4ab4ec0d517f37d
    ∷ 0xa9c6b498547c567a ∷ 0x8e18424f80fbbbb6 ∷ 0x0bcdc53bcf2bc23c ∷ 0x137739aaea3643d0
    ∷ 0x2c1333ec1bac2ff0 ∷ 0x8d48d3f0a7db0625 ∷ 0x1e1ac3f26b5de6d7 ∷ 0xf520f81f16b2b95e
    ∷ 0x9f0f6ec450062e84 ∷ 0x0130849e1deb6b71 ∷ 0xd45e31ab8c7533a9 ∷ 0x652279a2fd14e43f
    ∷ 0x3209f01e70f1c927 ∷ 0xbe71a770cac1a473 ∷ 0x0e3d6be7a64b1894 ∷ 0x7ec8148cff29d840
    ∷ 0xcb7476c7fac3be0f ∷ 0x72956a4a63a91636 ∷ 0x37f95ec21991138f ∷ 0x9e3fea5a4ded45f5
    ∷ 0x7b38ba50964902e8 ∷ 0x222e580bbde73764 ∷ 0x61e253e0899f55e6 ∷ 0xfc8d2805e352ad80
    ∷ 0x35994be3235ac56d ∷ 0x09add01af5e014de ∷ 0x5e8659a6780539c6 ∷ 0xb17c48097161d796
    ∷ 0x026015213acbd6e2 ∷ 0xd1ae9f77e515e901 ∷ 0xb7dc776a3f21b0ad ∷ 0xaba6a1b96eb78098
    ∷ 0x9bcf4486248d9f5d ∷ 0x582666c536455efd ∷ 0xfdbdac9bfeb9c6f1 ∷ 0xc47999be4163cdea
    ∷ 0x765540081722a7ef ∷ 0x3e548ed8ec710751 ∷ 0x3d041f67cb51bac2 ∷ 0x7958af71ac82d40a
    ∷ 0x36c9da5c047a78fe ∷ 0xed9a048e33af38b2 ∷ 0x26ee7249c96c86bd ∷ 0x900281bdeba65d61
    ∷ 0x11172c8bd0fd9532 ∷ 0xea0abf73600434f8 ∷ 0x42fc8f75299309f3 ∷ 0x34a9cf7d3eb1ae1c
    ∷ 0x2b838811480723ba ∷ 0x5ce64c8742ceef24 ∷ 0x1adae9b01fd6570e ∷ 0x3c349bf9d6bad1b3
    ∷ 0x82453c891c7b75c0 ∷ 0x97923a40b80d512b ∷ 0x4a61dbf1c198765c ∷ 0xb48ce6d518010d3e
    ∷ 0xcfb45c858e480fd6 ∷ 0xd933cbf30d1e96ae ∷ 0xd70ea014ab558e3a ∷ 0xc189376228031742
    ∷ 0x9262949cd16d8b83 ∷ 0xeb3a3bed7def5f89 ∷ 0x49314a4ee6b8cbcf ∷ 0xdcc3652f647e4c06
    ∷ 0xda635a4c2a3e2b3d ∷ 0x470c21a940f3d35b ∷ 0x315961a157d174b4 ∷ 0x6672e81dda3459ac
    ∷ 0x5b76f77a1165e36e ∷ 0x445cb01667d36ec8 ∷ 0xc5491d205c88a69b ∷ 0x456c34887a3805b9
    ∷ 0xffddb9bac4721013 ∷ 0x99af51a71e4649bf ∷ 0xa15be01cbc7729d5 ∷ 0x52db2760e485f7b0
    ∷ 0x8c78576eba306d54 ∷ 0xae560f6507d75a30 ∷ 0x95f22f6182c687c9 ∷ 0x71c5fbf54489aba5
    ∷ 0xca44f259e728d57e ∷ 0x88b87d2ccebbdc8d ∷ 0xbab18d32be4a15aa ∷ 0x8be8ec93e99b611e
    ∷ 0x17b713e89ebdf209 ∷ 0xb31c5d284baa0174 ∷ 0xeeca9531148f8521 ∷ 0xb8d198138481c348
    ∷ 0x8988f9b2d350b7fc ∷ 0xb9e11c8d996aa839 ∷ 0x5a4673e40c8e881f ∷ 0x1687977683569978
    ∷ 0xbf4123eed72acf02 ∷ 0x4ea1f1b3b513c785 ∷ 0xe767452be16f91ff ∷ 0x7505d1b730021a7c
    ∷ 0xa59bca5ec8fc980c ∷ 0xad069eda20f7e7a3 ∷ 0x38f4b1bba231606a ∷ 0x60d2d77e94743e97
    ∷ 0x9affc0183966f42c ∷ 0x248e6768f3a7505f ∷ 0xcdd449a4b483d934 ∷ 0x87b59255751baf68
    ∷ 0x1bea6d2e023d3c7f ∷ 0x6b1f12455b5ffcab ∷ 0x743555292de9710d ∷ 0xd8034f6d10f5fddf
    ∷ 0xc6198c9f7ba81b08 ∷ 0xbb8109aca3a17edb ∷ 0xfa2d1766ad12cabb ∷ 0xc729080166437079
    ∷ 0x9c5fff7b77269317 ∷ 0x0000000000000000 ∷ 0x15d706c9a47624eb ∷ 0x6fdf38072fd44d72
    ∷ 0x5fb6dd3865ee52b7 ∷ 0xa33bf53d86bcff37 ∷ 0xe657c1b5fc84fa8e ∷ 0xaa962527735cebe9
    ∷ 0x39c43525bfda0b1b ∷ 0x204e4d2a872ce186 ∷ 0x7a083ece8ba26999 ∷ 0x554b9c9db72efbfa
    ∷ 0xb22cd9b656416a05 ∷ 0x96a2bedea5e63a5a ∷ 0x802529a826b0a322 ∷ 0x8115ad363b5bc853
    ∷ 0x8375b81701901eb1 ∷ 0x3069e53f4a3a1fc5 ∷ 0xbd2136cfede119e0 ∷ 0x18bafc91251d81ec
    ∷ 0x1d4a524d4c7d5b44 ∷ 0x05f0aedc6960daa8 ∷ 0x29e39d3072ccf558 ∷ 0x70f57f6b5962c0d4
    ∷ 0x989fd53903ad22ce ∷ 0xf84d024797d91c59 ∷ 0x547b1803aac5908b ∷ 0xf0d056c37fd263f6
    ∷ 0xd56eb535919e58d8 ∷ 0x1c7ad6d351963035 ∷ 0x2e7326cd2167f912 ∷ 0xac361a443d1c8cd2
    ∷ 0x697f076461942a49 ∷ 0x4b515f6fdc731d2d ∷ 0x8ad8680df4700a6f ∷ 0x41ac1eca0eb3b460
    ∷ 0x7d988533d80965d3 ∷ 0xa8f6300649973d0b ∷ 0x7765c4960ac9cc9e ∷ 0x7ca801adc5e20ea2
    ∷ 0xdea3700e5eb59ae4 ∷ 0xa06b6482a19c42a4 ∷ 0x6a2f96db46b497da ∷ 0x27def6d7d487edcc
    ∷ 0x463ca5375d18b82a ∷ 0xa6cb5be1efdc259f ∷ 0x53eba3fef96e9cc1 ∷ 0xce84d81b93a364a7
    ∷ 0xf4107c810b59d22f ∷ 0x333974806d1aa256 ∷ 0x0f0def79bba073e5 ∷ 0x231edc95a00c5c15
    ∷ 0xe437d494c64f2c6c ∷ 0x91320523f64d3610 ∷ 0x67426c83c7df32dd ∷ 0x6eefbc99323f2603
    ∷ 0x9d6f7be56acdf866 ∷ 0x5916e25b2bae358c ∷ 0x7ff89012e2c2b331 ∷ 0x035091bf2720bd93
    ∷ 0x561b0d22900e4669 ∷ 0x28d319ae6f279e29 ∷ 0x2f43a2533c8c9263 ∷ 0xd09e1be9f8fe8270
    ∷ 0xf740ed3e2c796fbc ∷ 0xdb53ded237d5404c ∷ 0x62b2c25faebfe875 ∷ 0x0afd41a5d2c0a94d
    ∷ 0x6412fd3ce0ff8f4e ∷ 0xe3a76f6995e42026 ∷ 0x6c8fa9b808f4f0e1 ∷ 0xc2d9a6dd0f23aad1
    ∷ 0x8f28c6d19d10d0c7 ∷ 0x85d587744fd0798a ∷ 0xa20b71a39b579446 ∷ 0x684f83fa7c7f4138
    ∷ 0xe507500adba4471d ∷ 0x3f640a46f19a6c20 ∷ 0x1247bd34f7dd28a1 ∷ 0x2d23b77206474481
    ∷ 0x93521002cc86e0f2 ∷ 0x572b89bc8de52d18 ∷ 0xfb1d93f8b0f9a1ca ∷ 0xe95a2ecc4724896b
    ∷ 0x3ba420048511ddf9 ∷ 0xd63e248ab6bee54b ∷ 0x5dd6c8195f258455 ∷ 0x06a03f634e40673b
    ∷ 0x1f2a476c76b68da6 ∷ 0x217ec9b49ac78af7 ∷ 0xecaa80102e4453c3 ∷ 0x14e78257b99d4f9a ∷ []
