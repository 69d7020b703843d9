-- ===== src/Streebog/Tables/Ax3.antt =====
-- The table `Ax[3]` of src/generic/streebog_generic.c.
use Prim.Native.Nat.{ℕ}
use mathlib.Core.List.{List, [], ◌∷◌}

abbrev pub ax3 : List ℕ
ax3 =
    0x20329b2cc87bba05 ∷ 0x4f5eb6f86546a531 ∷ 0xd4f44775f751b6b1 ∷ 0x8266a47b850dfa8b
    ∷ 0xbb986aa15a6ca985 ∷ 0xc979eb08f9ae0f99 ∷ 0x2da6f447a2375ea1 ∷ 0x1e74275dcd7d8576
    ∷ 0xbc20180a800bc5f8 ∷ 0xb4a2f701b2dc65be ∷ 0xe726946f981b6d66 ∷ 0x48e6c453bf21c94c
    ∷ 0x42cad9930f0a4195 ∷ 0xefa47b64aacccd20 ∷ 0x71180a8960409a42 ∷ 0x8bb3329bf6a44e0c
    ∷ 0xd34c35de2d36dacc ∷ 0xa92f5b7cbc23dc96 ∷ 0xb31a85aa68bb09c3 ∷ 0x13e04836a73161d2
    ∷ 0xb24dfc4129c51d02 ∷ 0x8ae44b70b7da5acd ∷ 0xe671ed84d96579a7 ∷ 0xa4bb3417d66f3832
    ∷ 0x4572ab38d56d2de8 ∷ 0xb1b47761ea47215c ∷ 0xe81c09cf70aba15d ∷ 0xffbdb872ce7f90ac
    ∷ 0xa8782297fd5dc857 ∷ 0x0d946f6b6a4ce4a4 ∷ 0xe4df1f4f5b995138 ∷ 0x9ebc71edca8c5762
    ∷ 0x0a2c1dc0b02b88d9 ∷ 0x3b503c115d9d7b91 ∷ 0xc64376a8111ec3a2 ∷ 0xcec199a323c963e4
    ∷ 0xdc76a87ec58616f7 ∷ 0x09d596e073a9b487 ∷ 0x14583a9d7d560daf ∷ 0xf4c6dc593f2a0cb4
    ∷ 0xdd21d19584f80236 ∷ 0x4a4836983ddde1d3 ∷ 0xe58866a41ae745f9 ∷ 0xf591a5b27e541875
    ∷ 0x891dc05074586693 ∷ 0x5b068c651810a89e ∷ 0xa30346bc0c08544f ∷ 0x3dbf3751c684032d
    ∷ 0x2a1e86ec785032dc ∷ 0xf73f5779fca830ea ∷ 0xb60c05ca30204d21 ∷ 0x0cc316802b32f065
    ∷ 0x8770241bdd96be69 ∷ 0xb861e18199ee95db ∷ 0xf805cad91418fcd1 ∷ 0x29e70dccbbd20e82
    ∷ 0xc7140f435060d763 ∷ 0x0f3a9da0e8b0cc3b ∷ 0xa2543f574d76408e ∷ 0xbd7761e1c175d139
    ∷ 0x4b1f4f737ca3f512 ∷ 0x6dc2df1f2fc137ab ∷ 0xf1d05c3967b14856 ∷ 0xa742bf3715ed046c
    ∷ 0x654030141d1697ed ∷ 0x07b872abda676c7d ∷ 0x3ce84eba87fa17ec ∷ 0xc1fb0403cb79afdf
    ∷ 0x3e46bc7105063f73 ∷ 0x278ae987121cd678 ∷ 0xa1adb4778ef47cd0 ∷ 0x26dd906c5362c2b9
    ∷ 0x05168060589b44e2 ∷ 0xfbfc41f9d79ac08f ∷ 0x0e6de44ba9ced8fa ∷ 0x9feb08068bf243a3
    ∷ 0x7b341749d06b129b ∷ 0x229c69e74a87929a ∷ 0xe09ee6c4427c011b ∷ 0x5692e30e725c4c3a
    ∷ 0xda99a33e5e9f6e4b ∷ 0x353dd85af453a36b ∷ 0x25241b4c90e0fee7 ∷ 0x5de987258309d022
    ∷ 0xe230140fc0802984 ∷ 0x93281e86a0c0b3c6 ∷ 0xf229d719a4337408 ∷ 0x6f6c2dd4ad3d1f34
    ∷ 0x8ea5b2fbae3f0aee ∷ 0x8331dd90c473ee4a ∷ 0x346aa1b1b52db7aa ∷ 0xdf8f235e06042aa9
    ∷ 0xcc6f6b68a1354b7b ∷ 0x6c95a6f46ebf236a ∷ 0x52d31a856bb91c19 ∷ 0x1a35ded6d498d555
    ∷ 0xf37eaef2e54d60c9 ∷ 0x72e181a9a3c2a61c ∷ 0x98537aad51952fde ∷ 0x16f6c856ffaa2530
    ∷ 0xd960281e9d1d5215 ∷ 0x3a0745fa1ce36f50 ∷ 0x0b7b642bf1559c18 ∷ 0x59a87eae9aec8001
    ∷ 0x5e100c05408bec7c ∷ 0x0441f98b19e55023 ∷ 0xd70dcc5534d38aef ∷ 0x927f676de1bea707
    ∷ 0x9769e70db925e3e5 ∷ 0x7a636ea29115065a ∷ 0x468b201816ef11b6 ∷ 0xab81a9b73edff409
    ∷ 0xc0ac7de88a07bb1e ∷ 0x1f235eb68c0391b7 ∷ 0x6056b074458dd30f ∷ 0xbe8eeac102f7ed67
    ∷ 0xcd381283e04b5fba ∷ 0x5cbefecec277c4e3 ∷ 0xd21b4c356c48ce0d ∷ 0x1019c31664b35d8c
    ∷ 0x247362a7d19eea26 ∷ 0xebe582efb3299d03 ∷ 0x02aef2cb82fc289f ∷ 0x86275df09ce8aaa8
    ∷ 0x28b07427faac1a43 ∷ 0x38a9b7319e1f47cf ∷ 0xc82e92e3b8d01b58 ∷ 0x06ef0b409b1978bc
    ∷ 0x62f842bfc771fb90 ∷ 0x9904034610eb3b1f ∷ 0xded85ab5477a3e68 ∷ 0x90d195a663428f98
    ∷ 0x5384636e2ac708d8 ∷ 0xcbd719c37b522706 ∷ 0xae9729d76644b0eb ∷ 0x7c8c65e20a0c7ee6
    ∷ 0x80c856b007f1d214 ∷ 0x8c0b40302cc32271 ∷ 0xdbcedad51fe17a8a ∷ 0x740e8ae938dbdea0
    ∷ 0xa615c6dc549310ad ∷ 0x19cc55f6171ae90b ∷ 0x49b1bdb8fe5fdd8d ∷ 0xed0a89af2830e5bf
    ∷ 0x6a7aadb4f5a65bd6 ∷ 0x7e22972988f05679 ∷ 0xf952b3325566e810 ∷ 0x39fecedadf61530e
    ∷ 0x6101c99f04f3c7ce ∷ 0x2e5f7f6761b562ff ∷ 0xf08725d226cf5c97 ∷ 0x63af3b54860fef51
    ∷ 0x8ff2cb10ef411e2f ∷ 0x884ab9bb35267252 ∷ 0x4df04433e7ba8dae ∷ 0x9afd8866d3690741
    ∷ 0x66b9bb34de94abb3 ∷ 0x9baaf18d92171380 ∷ 0x543c11c5f0a064a5 ∷ 0x17a1b1bdbed431f1
    ∷ 0xb5f58eeaf3a2717f ∷ 0xc355f6c849858740 ∷ 0xec5df044694ef17e ∷ 0xd83751f5dc6346d4
    ∷ 0xfc4433520dfdacf2 ∷ 0x0000000000000000 ∷ 0x5a51f58e596ebc5f ∷ 0x3285aaf12e34cf16
    ∷ 0x8d5c39db6dbd36b0 ∷ 0x12b731dde64f7513 ∷ 0x94906c2d7aa7dfbb ∷ 0x302b583aacc8e789
    ∷ 0x9d45facd090e6b3c ∷ 0x2165e2c78905aec4 ∷ 0x68d45f7f775a7349 ∷ 0x189b2c1d5664fdca
    ∷ 0xe1c99f2f030215da ∷ 0x6983269436246788 ∷ 0x8489af3b1e148237 ∷ 0xe94b702431d5b59c
    ∷ 0x33d2d31a6f4adbd7 ∷ 0xbfd9932a4389f9a6 ∷ 0xb0e30e8aab39359d ∷ 0xd1e2c715afcaf253
    ∷ 0x150f43763c28196e ∷ 0xc4ed846393e2eb3d ∷ 0x03f98b20c3823c5e ∷ 0xfd134ab94c83b833
    ∷ 0x556b682eb1de7064 ∷ 0x36c4537a37d19f35 ∷ 0x7559f30279a5ca61 ∷ 0x799ae58252973a04
    ∷ 0x9c12832648707ffd ∷ 0x78cd9c6913e92ec5 ∷ 0x1d8dac7d0effb928 ∷ 0x439da0784e745554
    ∷ 0x413352b3cc887dcb ∷ 0xbacf134a1b12bd44 ∷ 0x114ebafd25cd494d ∷ 0x2f08068c20cb763e
    ∷ 0x76a07822ba27f63f ∷ 0xeab2fb04f25789c2 ∷ 0xe3676de481fe3d45 ∷ 0x1b62a73d95e6c194
    ∷ 0x641749ff5c68832c ∷ 0xa5ec4dfc97112cf3 ∷ 0xf6682e92bdd6242b ∷ 0x3f11c59a44782bb2
    ∷ 0x317c21d1edb6f348 ∷ 0xd65ab5be75ad9e2e ∷ 0x6b2dd45fb4d84f17 ∷ 0xfaab381296e4d44e
    ∷ 0xd0b5befeeeb4e692 ∷ 0x0882ef0b32d7a046 ∷ 0x512a91a5a83b2047 ∷ 0x963e9ee6f85bf724
    ∷ 0x4e09cf132438b1f0 ∷ 0x77f701c9fb59e2fe ∷ 0x7ddb1c094b726a27 ∷ 0x5f4775ee01f5f8bd
    ∷ 0x9186ec4d223c9b59 ∷ 0xfeeac1998f01846d ∷ 0xac39db1ce4b89874 ∷ 0xb75b7c21715e59e0
    ∷ 0xafc0503c273aa42a ∷ 0x6e3b543fec430bf5 ∷ 0x704f7362213e8e83 ∷ 0x58ff0745db9294c0
    ∷ 0x67eec2df9feabf72 ∷ 0xa0facd9ccf8a6811 ∷ 0xb936986ad890811a ∷ 0x95c715c63bd9cb7a
    ∷ 0xca8060283a2c33c7 ∷ 0x507de84ee9453486 ∷ 0x85ded6d05f6a96f6 ∷ 0x1cdad5964f81ade9
    ∷ 0xd5a33e9eb62fa270 ∷ 0x40642b588df6690a ∷ 0x7f75eec2c98e42b8 ∷ 0x2cf18dace3494a60
    ∷ 0x23cb100c0bf9865b ∷ 0xeef3028febb2d9e1 ∷ 0x4425d2d394133929 ∷ 0xaad6d05c7fa1e0c8
    ∷ 0xad6ea2f7a5c68cb5 ∷ 0xc2028f2308fb9381 ∷ 0x819f2f5b468fc6d5 ∷ 0xc5bafd88d29cfffc
    ∷ 0x47dc59f357910577 ∷ 0x2b49ff07392e261d ∷ 0x57c59ae5332258fb ∷ 0x73b6f842e2bcb2dd
    ∷ 0xcf96e04862b77725 ∷ 0x4ca73dd8a6c4996f ∷ 0x015779eb417e14c1 ∷ 0x37932a9176af8bf4 ∷ []
