-- ===== src/Streebog/Tables/Ax0.antt =====
-- The table `Ax[0]` of src/generic/streebog_generic.c.
use Prim.Native.Nat.{ℕ}
use mathlib.Core.List.{List, [], ◌∷◌}

abbrev pub ax0 : List ℕ
ax0 =
    0xd01f715b5c7ef8e6 ∷ 0x16fa240980778325 ∷ 0xa8a42e857ee049c8 ∷ 0x6ac1068fa186465b
    ∷ 0x6e417bd7a2e9320b ∷ 0x665c8167a437daab ∷ 0x7666681aa89617f6 ∷ 0x4b959163700bdcf5
    ∷ 0xf14be6b78df36248 ∷ 0xc585bd689a625cff ∷ 0x9557d7fca67d82cb ∷ 0x89f0b969af6dd366
    ∷ 0xb0833d48749f6c35 ∷ 0xa1998c23b1ecbc7c ∷ 0x8d70c431ac02a736 ∷ 0xd6dfbc2fd0a8b69e
    ∷ 0x37aeb3e551fa198b ∷ 0x0b7d128a40b5cf9c ∷ 0x5a8f2008b5780cbc ∷ 0xedec882284e333e5
    ∷ 0xd25fc177d3c7c2ce ∷ 0x5e0f5d50b61778ec ∷ 0x1d873683c0c24cb9 ∷ 0xad040bcbb45d208c
    ∷ 0x2f89a0285b853c76 ∷ 0x5732fff6791b8d58 ∷ 0x3e9311439ef6ec3f ∷ 0xc9183a809fd3c00f
    ∷ 0x83adf3f5260a01ee ∷ 0xa6791941f4e8ef10 ∷ 0x103ae97d0ca1cd5d ∷ 0x2ce948121dee1b4a
    ∷ 0x39738421dbf2bf53 ∷ 0x093da2a6cf0cf5b4 ∷ 0xcd9847d89cbcb45f ∷ 0xf9561c078b2d8ae8
    ∷ 0x9c6a755a6971777f ∷ 0xbc1ebaa0712ef0c5 ∷ 0x72e61542abf963a6 ∷ 0x78bb5fde229eb12e
    ∷ 0x14ba94250fceb90d ∷ 0x844d6697630e5282 ∷ 0x98ea08026a1e032f ∷ 0xf06bbea144217f5c
    ∷ 0xdb6263d11ccb377a ∷ 0x641c314b2b8ee083 ∷ 0x320e96ab9b4770cf ∷ 0x1ee7deb986a96b85
    ∷ 0xe96cf57a878c47b5 ∷ 0xfdd6615f8842feb8 ∷ 0xc83862965601dd1b ∷ 0x2ea9f83e92572162
    ∷ 0xf876441142ff97fc ∷ 0xeb2c455608357d9d ∷ 0x5612a7e0b0c9904c ∷ 0x6c01cbfb2d500823
    ∷ 0x4548a6a7fa037a2d ∷ 0xabc4c6bf388b6ef4 ∷ 0xbade77d4fdf8bebd ∷ 0x799b07c8eb4cac3a
    ∷ 0x0c9d87e805b19cf0 ∷ 0xcb588aac106afa27 ∷ 0xea0c1d40c1e76089 ∷ 0x2869354a1e816f1a
    ∷ 0xff96d17307fbc490 ∷ 0x9f0a9d602f1a5043 ∷ 0x96373fc6e016a5f7 ∷ 0x5292dab8b3a6e41c
    ∷ 0x9b8ae0382c752413 ∷ 0x4f15ec3b7364a8a5 ∷ 0x3fb349555724f12b ∷ 0xc7c50d4415db66d7
    ∷ 0x92b7429ee379d1a7 ∷ 0xd37f99611a15dfda ∷ 0x231427c05e34a086 ∷ 0xa439a96d7b51d538
    ∷ 0xb403401077f01865 ∷ 0xdda2aea5901d7902 ∷ 0x0a5d4a9c8967d288 ∷ 0xc265280adf660f93
    ∷ 0x8bb0094520d4e94e ∷ 0x2a29856691385532 ∷ 0x42a833c5bf072941 ∷ 0x73c64d54622b7eb2
    ∷ 0x07e095624504536c ∷ 0x8a905153e906f45a ∷ 0x6f6123c16b3b2f1f ∷ 0xc6e55552dc097bc3
    ∷ 0x4468feb133d16739 ∷ 0xe211e7f0c7398829 ∷ 0xa2f96419f7879b40 ∷ 0x19074bdbc3ad38e9
    ∷ 0xf4ebc3f9474e0b0c ∷ 0x43886bd376d53455 ∷ 0xd8028beb5aa01046 ∷ 0x51f23282f5cdc320
    ∷ 0xe7b1c2be0d84e16d ∷ 0x081dfab006dee8a0 ∷ 0x3b33340d544b857b ∷ 0x7f5bcabc679ae242
    ∷ 0x0edd37c48a08a6d8 ∷ 0x81ed43d9a9b33bc6 ∷ 0xb1a3655ebd4d7121 ∷ 0x69a1eeb5e7ed6167
    ∷ 0xf6ab73d5c8f73124 ∷ 0x1a67a3e185c61fd5 ∷ 0x2dc91004d43c065e ∷ 0x0240b02c8fb93a28
    ∷ 0x90f7f2b26cc0eb8f ∷ 0x3cd3a16f114fd617 ∷ 0xaae49ea9f15973e0 ∷ 0x06c0cd748cd64e78
    ∷ 0xda423bc7d5192a6e ∷ 0xc345701c16b41287 ∷ 0x6d2193ede4821537 ∷ 0xfcf639494190e3ac
    ∷ 0x7c3b228621f1c57e ∷ 0xfb16ac2b0494b0c0 ∷ 0xbf7e529a3745d7f9 ∷ 0x6881b6a32e3f7c73
    ∷ 0xca78d2bad9b8e733 ∷ 0xbbfe2fc2342aa3a9 ∷ 0x0dbddffecc6381e4 ∷ 0x70a6a56e2440598e
    ∷ 0xe4d12a844befc651 ∷ 0x8c509c2765d0ba22 ∷ 0xee8c6018c28814d9 ∷ 0x17da7c1f49a59e31
    ∷ 0x609c4c1328e194d3 ∷ 0xb3e3d57232f44b09 ∷ 0x91d7aaa4a512f69b ∷ 0x0ffd6fd243dabbcc
    ∷ 0x50d26a943c1fde34 ∷ 0x6be15e9968545b4f ∷ 0x94778fea6faf9fdf ∷ 0x2b09dd7058ea4826
    ∷ 0x677cd9716de5c7bf ∷ 0x49d5214fffb2e6dd ∷ 0x0360e83a466b273c ∷ 0x1fc786af4f7b7691
    ∷ 0xa0b9d435783ea168 ∷ 0xd49f0c035f118cb6 ∷ 0x01205816c9d21d14 ∷ 0xac2453dd7d8f3d98
    ∷ 0x545217cc3f70aa64 ∷ 0x26b4028e9489c9c2 ∷ 0xdec2469fd6765e3e ∷ 0x04807d58036f7450
    ∷ 0xe5f17292823ddb45 ∷ 0xf30b569b024a5860 ∷ 0x62dcfc3fa758aefb ∷ 0xe84cad6c4e5e5aa1
    ∷ 0xccb81fce556ea94b ∷ 0x53b282ae7a74f908 ∷ 0x1b47fbf74c1402c1 ∷ 0x368eebf39828049f
    ∷ 0x7afbeff2ad278b06 ∷ 0xbe5e0a8cfe97caed ∷ 0xcfd8f7f413058e77 ∷ 0xf78b2bc301252c30
    ∷ 0x4d555c17fcdd928d ∷ 0x5f2f05467fc565f8 ∷ 0x24f4b2a21b30f3ea ∷ 0x860dd6bbecb768aa
    ∷ 0x4c750401350f8f99 ∷ 0x0000000000000000 ∷ 0xecccd0344d312ef1 ∷ 0xb5231806be220571
    ∷ 0xc105c030990d28af ∷ 0x653c695de25cfd97 ∷ 0x159acc33c61ca419 ∷ 0xb89ec7f872418495
    ∷ 0xa9847693b73254dc ∷ 0x58cf90243ac13694 ∷ 0x59efc832f3132b80 ∷ 0x5c4fed7c39ae42c4
    ∷ 0x828dabe3efd81cfa ∷ 0xd13f294d95ace5f2 ∷ 0x7d1b7a90e823d86a ∷ 0xb643f03cf849224d
    ∷ 0x3df3f979d89dcb03 ∷ 0x7426d836272f2dde ∷ 0xdfe21e891fa4432a ∷ 0x3a136c1b9d99986f
    ∷ 0xfa36f43dcd46add4 ∷ 0xc025982650df35bb ∷ 0x856d3e81aadc4f96 ∷ 0xc4a5e57e53b041eb
    ∷ 0x4708168b75ba4005 ∷ 0xaf44bbe73be41aa4 ∷ 0x971767d029c4b8e3 ∷ 0xb9be9feebb939981
    ∷ 0x215497ecd18d9aae ∷ 0x316e7e91dd2c57f3 ∷ 0xcef8afe2dad79363 ∷ 0x3853dc371220a247
    ∷ 0x35ee03c9de4323a3 ∷ 0xe6919aa8c456fc79 ∷ 0xe05157dc4880b201 ∷ 0x7bdbb7e464f59612
    ∷ 0x127a59518318f775 ∷ 0x332ecebd52956ddb ∷ 0x8f30741d23bb9d1e ∷ 0xd922d3fd93720d52
    ∷ 0x7746300c61440ae2 ∷ 0x25d4eab4d2e2eefe ∷ 0x75068020eefd30ca ∷ 0x135a01474acaea61
    ∷ 0x304e268714fe4ae7 ∷ 0xa519f17bb283c82c ∷ 0xdc82f6b359cf6416 ∷ 0x5baf781e7caa11a8
    ∷ 0xb2c38d64fb26561d ∷ 0x34ce5bdf17913eb7 ∷ 0x5d6fb56af07c5fd0 ∷ 0x182713cd0a7f25fd
    ∷ 0x9e2ac576e6c84d57 ∷ 0x9aaab82ee5a73907 ∷ 0xa3d93c0f3e558654 ∷ 0x7e7b92aaae48ff56
    ∷ 0x872d8ead256575be ∷ 0x41c8dbfff96c0e7d ∷ 0x99ca5014a3cc1e3b ∷ 0x40e883e930be1369
    ∷ 0x1ca76e95091051ad ∷ 0x4e35b42dbab6b5b1 ∷ 0x05a0254ecabd6944 ∷ 0xe1710fca8152af15
    ∷ 0xf22b0e8dcb984574 ∷ 0xb763a82a319b3f59 ∷ 0x63fca4296e8ab3ef ∷ 0x9d4a2d4ca0a36a6b
    ∷ 0xe331bfe60eeb953d ∷ 0xd5bf541596c391a2 ∷ 0xf5cb9bef8e9c1618 ∷ 0x46284e9dbc685d11
    ∷ 0x2074cffa185f87ba ∷ 0xbd3ee2b6b8fcedd1 ∷ 0xae64e3f1f23607b0 ∷ 0xfeb68965ce29d984
    ∷ 0x55724fdaf6a2b770 ∷ 0x29496d5cd753720e ∷ 0xa75941573d3af204 ∷ 0x8e102c0bea69800a
    ∷ 0x111ab16bc573d049 ∷ 0xd7ffe439197aab8a ∷ 0xefac380e0b5a09cd ∷ 0x48f579593660fbc9
    ∷ 0x22347fd697e6bd92 ∷ 0x61bc1405e13389c7 ∷ 0x4ab5c975b9d9c1e1 ∷ 0x80cd1bcf606126d2
    ∷ 0x7186fd78ed92449a ∷ 0x93971a882aabccb3 ∷ 0x88d0e17f66bfce72 ∷ 0x27945a985d5bd4d6 ∷ []
