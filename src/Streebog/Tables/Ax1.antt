-- ===== src/Streebog/Tables/Ax1.antt =====
-- The table `Ax[1]` of src/generic/streebog_generic.c.
use Prim.Native.Nat.{ℕ}
use mathlib.Core.List.{List, [], ◌∷◌}

abbrev pub ax1 : List ℕ
ax1 =
    0xde553f8c05a811c8 ∷ 0x1906b59631b4f565 ∷ 0x436e70d6b1964ff7 ∷ 0x36d343cb8b1e9d85
    ∷ 0x843dfacc858aab5a ∷ 0xfdfc95c299bfc7f9 ∷ 0x0f634bdea1d51fa2 ∷ 0x6d458b3b76efb3cd
    ∷ 0x85c3f77cf8593f80 ∷ 0x3c91315fbe737cb2 ∷ 0x2148b03366ace398 ∷ 0x18f8b8264c6761bf
    ∷ 0xc830c1c495c9fb0f ∷ 0x981a76102086a0aa ∷ 0xaa16012142f35760 ∷ 0x35cc54060c763cf6
    ∷ 0x42907d66cc45db2d ∷ 0x8203d44b965af4bc ∷ 0x3d6f3cefc3a0e868 ∷ 0xbc73ff69d292bda7
    ∷ 0x8722ed0102e20a29 ∷ 0x8f8185e8cd34deb7 ∷ 0x9b0561dda7ee01d9 ∷ 0x5335a0193227fad6
    ∷ 0xc9cecc74e81a6fd5 ∷ 0x54f5832e5c2431ea ∷ 0x99e47ba05d553470 ∷ 0xf7bee756acd226ce
    ∷ 0x384e05a5571816fd ∷ 0xd1367452a47d0e6a ∷ 0xf29fde1c386ad85b ∷ 0x320c77316275f7ca
    ∷ 0xd0c879e2d9ae9ab0 ∷ 0xdb7406c69110ef5d ∷ 0x45505e51a2461011 ∷ 0xfc029872e46c5323
    ∷ 0xfa3cb6f5f7bc0cc5 ∷ 0x031f17cd8768a173 ∷ 0xbd8df2d9af41297d ∷ 0x9d3b4f5ab43e5e3f
    ∷ 0x4071671b36feee84 ∷ 0x716207e7d3e3b83d ∷ 0x48d20ff2f9283a1a ∷ 0x27769eb4757cbc7e
    ∷ 0x5c56ebc793f2e574 ∷ 0xa48b474f9ef5dc18 ∷ 0x52cbada94ff46e0c ∷ 0x60c7da982d8199c6
    ∷ 0x0e9d466edc068b78 ∷ 0x4eec2175eaf865fc ∷ 0x550b8e9e21f7a530 ∷ 0x6b7ba5bc653fec2b
    ∷ 0x5eb7f1ba6949d0dd ∷ 0x57ea94e3db4c9099 ∷ 0xf640eae6d101b214 ∷ 0xdd4a284182c0b0bb
    ∷ 0xff1d8fbf6304f250 ∷ 0xb8accb933bf9d7e8 ∷ 0xe8867c478eb68c4d ∷ 0x3f8e2692391bddc1
    ∷ 0xcb2fd60912a15a7c ∷ 0xaec935dbab983d2f ∷ 0xf55ffd2b56691367 ∷ 0x80e2ce366ce1c115
    ∷ 0x179bf3f8edb27e1d ∷ 0x01fe0db07dd394da ∷ 0xda8a0b76ecc37b87 ∷ 0x44ae53e1df9584cb
    ∷ 0xb310b4b77347a205 ∷ 0xdfab323c787b8512 ∷ 0x3b511268d070b78e ∷ 0x65e6e3d2b9396753
    ∷ 0x6864b271e2574d58 ∷ 0x259784c98fc789d7 ∷ 0x02e11a7dfabb35a9 ∷ 0x8841a6dfa337158b
    ∷ 0x7ade78c39b5dcdd0 ∷ 0xb7cf804d9a2cc84a ∷ 0x20b6bd831b7f7742 ∷ 0x75bd331d3a88d272
    ∷ 0x418f6aab4b2d7a5e ∷ 0xd9951cbb6babdaf4 ∷ 0xb6318dfde7ff5c90 ∷ 0x1f389b112264aa83
    ∷ 0x492c024284fbaec0 ∷ 0xe33a0363c608f9a0 ∷ 0x2688930408af28a4 ∷ 0xc7538a1a341ce4ad
    ∷ 0x5da8e677ee2171ae ∷ 0x8c9e92254a5c7fc4 ∷ 0x63d8cd55aae938b5 ∷ 0x29ebd8daa97a3706
    ∷ 0x959827b37be88aa1 ∷ 0x1484e4356adadf6e ∷ 0xa7945082199d7d6b ∷ 0xbf6ce8a455fa1cd4
    ∷ 0x9cc542eac9edcae5 ∷ 0x79c16f0e1c356ca3 ∷ 0x89bfab6fdee48151 ∷ 0xd4174d1830c5f0ff
    ∷ 0x9258048415eb419d ∷ 0x6139d72850520d1c ∷ 0x6a85a80c18ec78f1 ∷ 0xcd11f88e0171059a
    ∷ 0xcceff53e7ca29140 ∷ 0xd229639f2315af19 ∷ 0x90b91ef9ef507434 ∷ 0x5977d28d074a1be1
    ∷ 0x311360fce51d56b9 ∷ 0xc093a92d5a1f2f91 ∷ 0x1a19a25bb6dc5416 ∷ 0xeb996b8a09de2d3e
    ∷ 0xfee3820f1ed7668a ∷ 0xd7085ad5b7ad518c ∷ 0x7fff41890fe53345 ∷ 0xec5948bd67dde602
    ∷ 0x2fd5f65dbaaa68e0 ∷ 0xa5754affe32648c2 ∷ 0xf8ddac880d07396c ∷ 0x6fa491468c548664
    ∷ 0x0c7c5c1326bdbed1 ∷ 0x4a33158f03930fb3 ∷ 0x699abfc19f84d982 ∷ 0xe4fa2054a80b329c
    ∷ 0x6707f9af438252fa ∷ 0x08a368e9cfd6d49e ∷ 0x47b1442c58fd25b8 ∷ 0xbbb3dc5ebc91769b
    ∷ 0x1665fe489061eac7 ∷ 0x33f27a811fa66310 ∷ 0x93a609346838d547 ∷ 0x30ed6d4c98cec263
    ∷ 0x1dd9816cd8df9f2a ∷ 0x94662a03063b1e7b ∷ 0x83fdd9fbeb896066 ∷ 0x7b207573e68e590a
    ∷ 0x5f49fc0a149a4407 ∷ 0x343259b671a5a82c ∷ 0xfbc2bb458a6f981f ∷ 0xc272b350a0a41a38
    ∷ 0x3aaf1fd8ada32354 ∷ 0x6cbb868b0b3c2717 ∷ 0xa2b569c88d2583fe ∷ 0xf180c9d1bf027928
    ∷ 0xaf37386bd64ba9f5 ∷ 0x12bacab2790a8088 ∷ 0x4c0d3b0810435055 ∷ 0xb2eeb9070e9436df
    ∷ 0xc5b29067cea7d104 ∷ 0xdcb425f1ff132461 ∷ 0x4f122cc5972bf126 ∷ 0xac282fa651230886
    ∷ 0xe7e537992f6393ef ∷ 0xe61b3a2952b00735 ∷ 0x709c0a57ae302ce7 ∷ 0xe02514ae416058d3
    ∷ 0xc44c9dd7b37445de ∷ 0x5a68c5408022ba92 ∷ 0x1c278cdca50c0bf0 ∷ 0x6e5a9cf6f18712be
    ∷ 0x86dce0b17f319ef3 ∷ 0x2d34ec2040115d49 ∷ 0x4bcd183f7e409b69 ∷ 0x2815d56ad4a9a3dc
    ∷ 0x24698979f2141d0d ∷ 0x0000000000000000 ∷ 0x1ec696a15fb73e59 ∷ 0xd86b110b16784e2e
    ∷ 0x8e7f8858b0e74a6d ∷ 0x063e2e8713d05fe6 ∷ 0xe2c40ed3bbdb6d7a ∷ 0xb1f1aeca89fc97ac
    ∷ 0xe1db191e3cb3cc09 ∷ 0x6418ee62c4eaf389 ∷ 0xc6ad87aa49cf7077 ∷ 0xd6f65765ca7ec556
    ∷ 0x9afb6c6dda3d9503 ∷ 0x7ce05644888d9236 ∷ 0x8d609f95378feb1e ∷ 0x23a9aa4e9c17d631
    ∷ 0x6226c0e5d73aac6f ∷ 0x56149953a69f0443 ∷ 0xeeb852c09d66d3ab ∷ 0x2b0ac2a753c102af
    ∷ 0x07c023376e03cb3c ∷ 0x2ccae1903dc2c993 ∷ 0xd3d76e2f5ec63bc3 ∷ 0x9e2458973356ff4c
    ∷ 0xa66a5d32644ee9b1 ∷ 0x0a427294356de137 ∷ 0x783f62be61e6f879 ∷ 0x1344c70204d91452
    ∷ 0x5b96c8f0fdf12e48 ∷ 0xa90916ecc59bf613 ∷ 0xbe92e5142829880e ∷ 0x727d102a548b194e
    ∷ 0x1be7afebcb0fc0cc ∷ 0x3e702b2244c8491b ∷ 0xd5e940a84d166425 ∷ 0x66f9f41f3e51c620
    ∷ 0xabe80c913f20c3ba ∷ 0xf07ec461c2d1edf2 ∷ 0xf361d3ac45b94c81 ∷ 0x0521394a94b8fe95
    ∷ 0xadd622162cf09c5c ∷ 0xe97871f7f3651897 ∷ 0xf4a1f09b2bba87bd ∷ 0x095d6559b2054044
    ∷ 0x0bbc7f2448be75ed ∷ 0x2af4cf172e129675 ∷ 0x157ae98517094bb4 ∷ 0x9fda55274e856b96
    ∷ 0x914713499283e0ee ∷ 0xb952c623462a4332 ∷ 0x74433ead475b46a8 ∷ 0x8b5eb112245fb4f8
    ∷ 0xa34b6478f0f61724 ∷ 0x11a5dd7ffe6221fb ∷ 0xc16da49d27ccbb4b ∷ 0x76a224d0bde07301
    ∷ 0x8aa0bca2598c2022 ∷ 0x4df336b86d90c48f ∷ 0xea67663a740db9e4 ∷ 0xef465f70e0b54771
    ∷ 0x39b008152acb8227 ∷ 0x7d1e5bf4f55e06ec ∷ 0x105bd0cf83b1b521 ∷ 0x775c2960c033e7db
    ∷ 0x7e014c397236a79f ∷ 0x811cc386113255cf ∷ 0xeda7450d1a0e72d8 ∷ 0x5889df3d7a998f3b
    ∷ 0x2e2bfbedc779fc3a ∷ 0xce0eef438619a4e9 ∷ 0x372d4e7bf6cd095f ∷ 0x04df34fae96b6a4f
    ∷ 0xf923a13870d4adb6 ∷ 0xa1aa7e050a4d228d ∷ 0xa8f71b5cb84862c9 ∷ 0xb52e9a306097fde3
    ∷ 0x0d8251a35b6e2a0b ∷ 0x2257a7fee1c442eb ∷ 0x73831d9a29588d94 ∷ 0x51d4ba64c89ccf7f
    ∷ 0x502ab7d4b54f5ba5 ∷ 0x97793dce8153bf08 ∷ 0xe5042de4d5d8a646 ∷ 0x9687307efc802bd2
    ∷ 0xa05473b5779eb657 ∷ 0xb4d097801d446939 ∷ 0xcff0e2f3fbca3033 ∷ 0xc38cbee0dd778ee2
    ∷ 0x464f499c252eb162 ∷ 0xcad1dbb96f72cea6 ∷ 0xba4dd1eec142e241 ∷ 0xb00fa37af42f0376 ∷ []
