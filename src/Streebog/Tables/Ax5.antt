-- ===== src/Streebog/Tables/Ax5.antt =====
-- The table `Ax[5]` of src/generic/streebog_generic.c.
use Prim.Native.Nat.{ℕ}
use mathlib.Core.List.{List, [], ◌∷◌}

abbrev pub ax5 : List ℕ
ax5 =
    0x6d6ae04668a9b08a ∷ 0x3ab3f04b0be8c743 ∷ 0xe51e166b54b3c908 ∷ 0xbe90a9eb35c2f139
    ∷ 0xb2c7066637f2bec1 ∷ 0xaa6945613392202c ∷ 0x9a28c36f3b5201eb ∷ 0xddce5a93ab536994
    ∷ 0x0e34133ef6382827 ∷ 0x52a02ba1ec55048b ∷ 0xa2f88f97c4b2a177 ∷ 0x8640e513ca2251a5
    ∷ 0xcdf1d36258137622 ∷ 0xfe6cb708dedf8ddb ∷ 0x8a174a9ec8121e5d ∷ 0x679896036b81560e
    ∷ 0x59ed033395795fee ∷ 0x1dd778ab8b74edaf ∷ 0xee533ef92d9f926d ∷ 0x2a8c79baf8a8d8f5
    ∷ 0x6bcf398e69b119f6 ∷ 0xe20491742fafdd95 ∷ 0x276488e0809c2aec ∷ 0xea955b82d88f5cce
    ∷ 0x7102c63a99d9e0c4 ∷ 0xf9763017a5c39946 ∷ 0x429fa2501f151b3d ∷ 0x4659c72bea05d59e
    ∷ 0x984b7fdccf5a6634 ∷ 0xf742232953fbb161 ∷ 0x3041860e08c021c7 ∷ 0x747bfd9616cd9386
    ∷ 0x4bb1367192312787 ∷ 0x1b72a1638a6c44d3 ∷ 0x4a0e68a6e8359a66 ∷ 0x169a5039f258b6ca
    ∷ 0xb98a2ef44edee5a4 ∷ 0xd9083fe85e43a737 ∷ 0x967f6ce239624e13 ∷ 0x8874f62d3c1a7982
    ∷ 0x3c1629830af06e3f ∷ 0x9165ebfd427e5a8e ∷ 0xb5dd81794ceeaa5c ∷ 0x0de8f15a7834f219
    ∷ 0x70bd98ede3dd5d25 ∷ 0xaccc9ca9328a8950 ∷ 0x56664eda1945ca28 ∷ 0x221db34c0f8859ae
    ∷ 0x26dbd637fa98970d ∷ 0x1acdffb4f068f932 ∷ 0x4585254f64090fa0 ∷ 0x72de245e17d53afa
    ∷ 0x1546b25d7c546cf4 ∷ 0x207e0ffffb803e71 ∷ 0xfaaad2732bcf4378 ∷ 0xb462dfae36ea17bd
    ∷ 0xcf926fd1ac1b11fd ∷ 0xe0672dc7dba7ba4a ∷ 0xd3fa49ad5d6b41b3 ∷ 0x8ba81449b216a3bc
    ∷ 0x14f9ec8a0650d115 ∷ 0x40fc1ee3eb1d7ce2 ∷ 0x23a2ed9b758ce44f ∷ 0x782c521b14fddc7e
    ∷ 0x1c68267cf170504e ∷ 0xbcf31558c1ca96e6 ∷ 0xa781b43b4ba6d235 ∷ 0xf6fd7dfe29ff0c80
    ∷ 0xb0a4bad5c3fad91e ∷ 0xd199f51ea963266c ∷ 0x414340349119c103 ∷ 0x5405f269ed4dadf7
    ∷ 0xabd61bb649969dcd ∷ 0x6813dbeae7bdc3c8 ∷ 0x65fb2ab09f8931d1 ∷ 0xf1e7fae152e3181d
    ∷ 0xc1a67cef5a2339da ∷ 0x7a4feea8e0f5bba1 ∷ 0x1e0b9acf05783791 ∷ 0x5b8ebf8061713831
    ∷ 0x80e53cdbcb3af8d9 ∷ 0x7e898bd315e57502 ∷ 0xc6bcfbf0213f2d47 ∷ 0x95a38e86b76e942d
    ∷ 0x092e94218d243cba ∷ 0x8339debf453622e7 ∷ 0xb11be402b9fe64ff ∷ 0x57d9100d634177c9
    ∷ 0xcc4e8db52217cbc3 ∷ 0x3b0cae9c71ec7aa2 ∷ 0xfb158ca451cbfe99 ∷ 0x2b33276d82ac6514
    ∷ 0x01bf5ed77a04bde1 ∷ 0xc5601994af33f779 ∷ 0x75c4a3416cc92e67 ∷ 0xf3844652a6eb7fc2
    ∷ 0x3487e375fdd0ef64 ∷ 0x18ae430704609eed ∷ 0x4d14efb993298efb ∷ 0x815a620cb13e4538
    ∷ 0x125c354207487869 ∷ 0x9eeea614ce42cf48 ∷ 0xce2d3106d61fac1c ∷ 0xbbe99247bad6827b
    ∷ 0x071a871f7b1c149d ∷ 0x2e4a1cc10db81656 ∷ 0x77a71ff298c149b8 ∷ 0x06a5d9c80118a97c
    ∷ 0xad73c27e488e34b1 ∷ 0x443a7b981e0db241 ∷ 0xe3bbcfa355ab6074 ∷ 0x0af276450328e684
    ∷ 0x73617a896dd1871b ∷ 0x58525de4ef7de20f ∷ 0xb7be3dcab8e6cd83 ∷ 0x19111dd07e64230c
    ∷ 0x842359a03e2a367a ∷ 0x103f89f1f3401fb6 ∷ 0xdc710444d157d475 ∷ 0xb835702334da5845
    ∷ 0x4320fc876511a6dc ∷ 0xd026abc9d3679b8d ∷ 0x17250eee885c0b2b ∷ 0x90dab52a387ae76f
    ∷ 0x31fed8d972c49c26 ∷ 0x89cba8fa461ec463 ∷ 0x2ff5421677bcabb7 ∷ 0x396f122f85e41d7d
    ∷ 0xa09b332430bac6a8 ∷ 0xc888e8ced7070560 ∷ 0xaeaf201ac682ee8f ∷ 0x1180d7268944a257
    ∷ 0xf058a43628e7a5fc ∷ 0xbd4c4b8fbbce2b07 ∷ 0xa1246df34abe7b49 ∷ 0x7d5569b79be9af3c
    ∷ 0xa9b5a705bd9efa12 ∷ 0xdb6b835baa4bc0e8 ∷ 0x05793bac8f147342 ∷ 0x21c1512881848390
    ∷ 0xfdb0556c50d357e5 ∷ 0x613d4fcb6a99ff72 ∷ 0x03dce2648e0cda3e ∷ 0xe949b9e6568386f0
    ∷ 0xfc0f0bbb2ad7ea04 ∷ 0x6a70675913b5a417 ∷ 0x7f36d5046fe1c8e3 ∷ 0x0c57af8d02304ff8
    ∷ 0x32223abdfcc84618 ∷ 0x0891caf6f720815b ∷ 0xa63eeaec31a26fd4 ∷ 0x2507345374944d33
    ∷ 0x49d28ac266394058 ∷ 0xf5219f9aa7f3d6be ∷ 0x2d96fea583b4cc68 ∷ 0x5a31e1571b7585d0
    ∷ 0x8ed12fe53d02d0fe ∷ 0xdfade6205f5b0e4b ∷ 0x4cabb16ee92d331a ∷ 0x04c6657bf510cea3
    ∷ 0xd73c2cd6a87b8f10 ∷ 0xe1d87310a1a307ab ∷ 0x6cd5be9112ad0d6b ∷ 0x97c032354366f3f2
    ∷ 0xd4e0ceb22677552e ∷ 0x0000000000000000 ∷ 0x29509bde76a402cb ∷ 0xc27a9e8bd42fe3e4
    ∷ 0x5ef7842cee654b73 ∷ 0xaf107ecdbc86536e ∷ 0x3fcacbe784fcb401 ∷ 0xd55f90655c73e8cf
    ∷ 0xe6c2f40fdabf1336 ∷ 0xe8f6e7312c873b11 ∷ 0xeb2a0555a28be12f ∷ 0xe4a148bc2eb774e9
    ∷ 0x9b979db84156bc0a ∷ 0x6eb60222e6a56ab4 ∷ 0x87ffbbc4b026ec44 ∷ 0xc703a5275b3b90a6
    ∷ 0x47e699fc9001687f ∷ 0x9c8d1aa73a4aa897 ∷ 0x7cea3760e1ed12dd ∷ 0x4ec80ddd1d2554c5
    ∷ 0x13e36b957d4cc588 ∷ 0x5d2b66486069914d ∷ 0x92b90999cc7280b0 ∷ 0x517cc9c56259deb5
    ∷ 0xc937b619ad03b881 ∷ 0xec30824ad997f5b2 ∷ 0xa45d565fc5aa080b ∷ 0xd6837201d27f32f1
    ∷ 0x635ef3789e9198ad ∷ 0x531f75769651b96a ∷ 0x4f77530a6721e924 ∷ 0x486dd4151c3dfdb9
    ∷ 0x5f48dafb9461f692 ∷ 0x375b011173dc355a ∷ 0x3da9775470f4d3de ∷ 0x8d0dcd81b30e0ac0
    ∷ 0x36e45fc609d888bb ∷ 0x55baacbe97491016 ∷ 0x8cb29356c90ab721 ∷ 0x76184125e2c5f459
    ∷ 0x99f4210bb55edbd5 ∷ 0x6f095cf59ca1d755 ∷ 0x9f51f8c3b44672a9 ∷ 0x3538bda287d45285
    ∷ 0x50c39712185d6354 ∷ 0xf23b1885dcefc223 ∷ 0x79930ccc6ef9619f ∷ 0xed8fdc9da3934853
    ∷ 0xcb540aaa590bdf5e ∷ 0x5c94389f1a6d2cac ∷ 0xe77daad8a0bbaed7 ∷ 0x28efc5090ca0bf2a
    ∷ 0xbf2ff73c4fc64cd8 ∷ 0xb37858b14df60320 ∷ 0xf8c96ec0dfc724a7 ∷ 0x828680683f329f06
    ∷ 0x941cd051cd6a29cc ∷ 0xc3c5c05cae2b5e05 ∷ 0xb601631dc2e27062 ∷ 0xc01922382027843b
    ∷ 0x24b86a840e90f0d2 ∷ 0xd245177a276ffc52 ∷ 0x0f8b4de98c3c95c6 ∷ 0x3e759530fef809e0
    ∷ 0x0b4d2892792c5b65 ∷ 0xc4df4743d5374a98 ∷ 0xa5e20888bfaeb5ea ∷ 0xba56cc90c0d23f9a
    ∷ 0x38d04cf8ffe0a09c ∷ 0x62e1adafe495254c ∷ 0x0263bcb3f40867df ∷ 0xcaeb547d230f62bf
    ∷ 0x6082111c109d4293 ∷ 0xdad4dd8cd04f7d09 ∷ 0xefec602e579b2f8c ∷ 0x1fb4c4187f7c8a70
    ∷ 0xffd3e9dfa4db303a ∷ 0x7bf0b07f9af10640 ∷ 0xf49ec14dddf76b5f ∷ 0x8f6e713247066d1f
    ∷ 0x339d646a86ccfbf9 ∷ 0x64447467e58d8c30 ∷ 0x2c29a072f9b07189 ∷ 0xd8b7613f24471ad6
    ∷ 0x6627c8d41185ebef ∷ 0xa347d140beb61c96 ∷ 0xde12b8f7255fb3aa ∷ 0x9d324470404e1576
    ∷ 0x9306574eb6763d51 ∷ 0xa80af9d2c79a47f3 ∷ 0x859c0777442e8b9b ∷ 0x69ac853d9db97e29 ∷ []
