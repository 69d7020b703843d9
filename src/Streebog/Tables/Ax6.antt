-- ===== src/Streebog/Tables/Ax6.antt =====
-- The table `Ax[6]` of src/generic/streebog_generic.c.
use Prim.Native.Nat.{ℕ}
use mathlib.Core.List.{List, [], ◌∷◌}

abbrev pub ax6 : List ℕ
ax6 =
    0xc3407dfc2de6377e ∷ 0x5b9e93eea4256f77 ∷ 0xadb58fdd50c845e0 ∷ 0x5219ff11a75bed86
    ∷ 0x356b61cfd90b1de9 ∷ 0xfb8f406e25abe037 ∷ 0x7a5a0231c0f60796 ∷ 0x9d3cd216e1f5020b
    ∷ 0x0c6550fb6b48d8f3 ∷ 0xf57508c427ff1c62 ∷ 0x4ad35ffa71cb407d ∷ 0x6290a2da1666aa6d
    ∷ 0xe284ec2349355f9f ∷ 0xb3c307c53d7c84ec ∷ 0x05e23c0468365a02 ∷ 0x190bac4d6c9ebfa8
    ∷ 0x94bbbee9e28b80fa ∷ 0xa34fc777529cb9b5 ∷ 0xcc7b39f095bcd978 ∷ 0x2426addb0ce532e3
    ∷ 0x7e79329312ce4fc7 ∷ 0xab09a72eebec2917 ∷ 0xf8d15499f6b9d6c2 ∷ 0x1a55b8babf8c895d
    ∷ 0xdb8add17fb769a85 ∷ 0xb57f2f368658e81b ∷ 0x8acd36f18f3f41f6 ∷ 0x5ce3b7bba50f11d3
    ∷ 0x114dcc14d5ee2f0a ∷ 0xb91a7fcded1030e8 ∷ 0x81d5425fe55de7a1 ∷ 0xb6213bc1554adeee
    ∷ 0x80144ef95f53f5f2 ∷ 0x1e7688186db4c10c ∷ 0x3b912965db5fe1bc ∷ 0xc281715a97e8252d
    ∷ 0x54a5d7e21c7f8171 ∷ 0x4b12535ccbc5522e ∷ 0x1d289cefbea6f7f9 ∷ 0x6ef5f2217d2e729e
    ∷ 0xe6a7dc819b0d17ce ∷ 0x1b94b41c05829b0e ∷ 0x33d7493c622f711e ∷ 0xdcf7f942fa5ce421
    ∷ 0x600fba8b7f7a8ecb ∷ 0x46b60f011a83988e ∷ 0x235b898e0dcf4c47 ∷ 0x957ab24f588592a9
    ∷ 0x4354330572b5c28c ∷ 0xa5f3ef84e9b8d542 ∷ 0x8c711e02341b2d01 ∷ 0x0b1874ae6a62a657
    ∷ 0x1213d8e306fc19ff ∷ 0xfe6d7c6a4d9dba35 ∷ 0x65ed868f174cd4c9 ∷ 0x88522ea0e6236550
    ∷ 0x899322065c2d7703 ∷ 0xc01e690bfef4018b ∷ 0x915982ed8abddaf8 ∷ 0xbe675b98ec3a4e4c
    ∷ 0xa996bf7f82f00db1 ∷ 0xe1daf8d49a27696a ∷ 0x2effd5d3dc8986e7 ∷ 0xd153a51f2b1a2e81
    ∷ 0x18caa0ebd690adfb ∷ 0x390e3134b243c51a ∷ 0x2778b92cdff70416 ∷ 0x029f1851691c24a6
    ∷ 0x5e7cafeacc133575 ∷ 0xfa4e4cc89fa5f264 ∷ 0x5a5f9f481e2b7d24 ∷ 0x484c47ab18d764db
    ∷ 0x400a27f2a1a7f479 ∷ 0xaeeb9b2a83da7315 ∷ 0x721c626879869734 ∷ 0x042330a2d2384851
    ∷ 0x85f672fd3765aff0 ∷ 0xba446b3a3e02061d ∷ 0x73dd6ecec3888567 ∷ 0xffac70ccf793a866
    ∷ 0xdfa9edb5294ed2d4 ∷ 0x6c6aea7014325638 ∷ 0x834a5a0e8c41c307 ∷ 0xcdba35562fb2cb2b
    ∷ 0x0ad97808d06cb404 ∷ 0x0f3b440cb85aee06 ∷ 0xe5f9c876481f213b ∷ 0x98deee1289c35809
    ∷ 0x59018bbfcd394bd1 ∷ 0xe01bf47220297b39 ∷ 0xde68e1139340c087 ∷ 0x9fa3ca4788e926ad
    ∷ 0xbb85679c840c144e ∷ 0x53d8f3b71d55ffd5 ∷ 0x0da45c5dd146caa0 ∷ 0x6f34fe87c72060cd
    ∷ 0x57fbc315cf6db784 ∷ 0xcee421a1fca0fdde ∷ 0x3d2d0196607b8d4b ∷ 0x642c8a29ad42c69a
    ∷ 0x14aff010bdd87508 ∷ 0xac74837beac657b3 ∷ 0x3216459ad821634d ∷ 0x3fb219c70967a9ed
    ∷ 0x06bc28f3bb246cf7 ∷ 0xf2082c9126d562c6 ∷ 0x66b39278c45ee23c ∷ 0xbd394f6f3f2878b9
    ∷ 0xfd33689d9e8f8cc0 ∷ 0x37f4799eb017394f ∷ 0x108cc0b26fe03d59 ∷ 0xda4bd1b1417888d6
    ∷ 0xb09d1332ee6eb219 ∷ 0x2f3ed975668794b4 ∷ 0x58c0871977375982 ∷ 0x7561463d78ace990
    ∷ 0x09876cff037e82f1 ∷ 0x7fb83e35a8c05d94 ∷ 0x26b9b58a65f91645 ∷ 0xef20b07e9873953f
    ∷ 0x3148516d0b3355b8 ∷ 0x41cb2b541ba9e62a ∷ 0x790416c613e43163 ∷ 0xa011d380818e8f40
    ∷ 0x3a5025c36151f3ef ∷ 0xd57095bdf92266d0 ∷ 0x498d4b0da2d97688 ∷ 0x8b0c3a57353153a5
    ∷ 0x21c491df64d368e1 ∷ 0x8f2f0af5e7091bf4 ∷ 0x2da1c1240f9bb012 ∷ 0xc43d59a92ccc49da
    ∷ 0xbfa6573e56345c1f ∷ 0x828b56a8364fd154 ∷ 0x9a41f643e0df7caf ∷ 0xbcf843c985266aea
    ∷ 0x2b1de9d7b4bfdce5 ∷ 0x20059d79dedd7ab2 ∷ 0x6dabe6d6ae3c446b ∷ 0x45e81bf6c991ae7b
    ∷ 0x6351ae7cac68b83e ∷ 0xa432e32253b6c711 ∷ 0xd092a9b991143cd2 ∷ 0xcac711032e98b58f
    ∷ 0xd8d4c9e02864ac70 ∷ 0xc5fc550f96c25b89 ∷ 0xd7ef8dec903e4276 ∷ 0x67729ede7e50f06f
    ∷ 0xeac28c7af045cf3d ∷ 0xb15c1f945460a04a ∷ 0x9cfddeb05bfb1058 ∷ 0x93c69abce3a1fe5e
    ∷ 0xeb0380dc4a4bdd6e ∷ 0xd20db1e8f8081874 ∷ 0x229a8528b7c15e14 ∷ 0x44291750739fbc28
    ∷ 0xd3ccbd4e42060a27 ∷ 0xf62b1c33f4ed2a97 ∷ 0x86a8660ae4779905 ∷ 0xd62e814a2a305025
    ∷ 0x477703a7a08d8add ∷ 0x7b9b0e977af815c5 ∷ 0x78c51a60a9ea2330 ∷ 0xa6adfb733aaae3b7
    ∷ 0x97e5aa1e3199b60f ∷ 0x0000000000000000 ∷ 0xf4b404629df10e31 ∷ 0x5564db44a6719322
    ∷ 0x9207961a59afec0d ∷ 0x9624a6b88b97a45c ∷ 0x363575380a192b1c ∷ 0x2c60cd82b595a241
    ∷ 0x7d272664c1dc7932 ∷ 0x7142769faa94a1c1 ∷ 0xa1d0df263b809d13 ∷ 0x1630e841d4c451ae
    ∷ 0xc1df65ad44fa13d8 ∷ 0x13d2d445bcf20bac ∷ 0xd915c546926abe23 ∷ 0x38cf3d92084dd749
    ∷ 0xe766d0272103059d ∷ 0xc7634d5effde7f2f ∷ 0x077d2455012a7ea4 ∷ 0xedbfa82ff16fb199
    ∷ 0xaf2a978c39d46146 ∷ 0x42953fa3c8bbd0df ∷ 0xcb061da59496a7dc ∷ 0x25e7a17db6eb20b0
    ∷ 0x34aa6d6963050fba ∷ 0xa76cf7d580a4f1e4 ∷ 0xf7ea10954ee338c4 ∷ 0xfcf2643b24819e93
    ∷ 0xcf252d0746aeef8d ∷ 0x4ef06f58a3f3082c ∷ 0x563acfb37563a5d7 ∷ 0x5086e740ce47c920
    ∷ 0x2982f186dda3f843 ∷ 0x87696aac5e798b56 ∷ 0x5d22bb1d1f010380 ∷ 0x035e14f7d31236f5
    ∷ 0x3cec0d30da759f18 ∷ 0xf3c920379cdb7095 ∷ 0xb8db736b571e22bb ∷ 0xdd36f5e44052f672
    ∷ 0xaac8ab8851e23b44 ∷ 0xa857b3d938fe1fe2 ∷ 0x17f1e4e76eca43fd ∷ 0xec7ea4894b61a3ca
    ∷ 0x9e62c6e132e734fe ∷ 0xd4b1991b432c7483 ∷ 0x6ad6c283af163acf ∷ 0x1ce9904904a8e5aa
    ∷ 0x5fbda34c761d2726 ∷ 0xf910583f4cb7c491 ∷ 0xc6a241f845d06d7c ∷ 0x4f3163fe19fd1a7f
    ∷ 0xe99c988d2357f9c8 ∷ 0x8eee06535d0709a7 ∷ 0x0efa48aa0254fc55 ∷ 0xb4be23903c56fa48
    ∷ 0x763f52caabbedf65 ∷ 0xeee1bcd8227d876c ∷ 0xe345e085f33b4dcc ∷ 0x3e731561b369bbbe
    ∷ 0x2843fd2067adea10 ∷ 0x2adce5710eb1ceb6 ∷ 0xb7e03767ef44ccbd ∷ 0x8db012a48e153f52
    ∷ 0x61ceb62dc5749c98 ∷ 0xe85d942b9959eb9b ∷ 0x4c6f7709caef2c8a ∷ 0x84377e5b8d6bbda3
    ∷ 0x30895dcbb13d47eb ∷ 0x74a04a9bc2a2fbc3 ∷ 0x6b17ce251518289c ∷ 0xe438c4d0f2113368
    ∷ 0x1fb784bed7bad35f ∷ 0x9b80fae55ad16efc ∷ 0x77fe5e6c11b0cd36 ∷ 0xc858095247849129
    ∷ 0x08466059b97090a2 ∷ 0x01c10ca6ba0e1253 ∷ 0x6988d6747c040c3a ∷ 0x6849dad2c60a1e69
    ∷ 0x5147ebe67449db73 ∷ 0xc99905f4fd8a837a ∷ 0x991fe2b433cd4a5a ∷ 0xf09734c04fc94660
    ∷ 0xa28ecbd1e892abe6 ∷ 0xf1563866f5c75433 ∷ 0x4dae7baf70e13ed9 ∷ 0x7ce62ac27bd26b61
    ∷ 0x70837a39109ab392 ∷ 0x90988e4b30b3c8ab ∷ 0xb2020b63877296bf ∷ 0x156efcb607d6675b ∷ []
