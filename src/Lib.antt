-- ===== src/Lib.antt =====
-- libpogost: a C library of cryptographic primitives, mainly those of the GOST standards, with
-- one core for user space and the kernel.
--
-- Parts and how they interact. A block cipher (GOST 28147-89, RC2, Kuznyechik) works on one
-- block; its modes chain blocks and keep an initial vector. A hash (Streebog, GOST R 34.11-94,
-- SHA-1) keeps a buffer of less than one block and hashes every full block into its core. HMAC
-- runs the hash twice over a block made of the key; PBKDF2 and the derivations of TLS call HMAC
-- in loops with counters. Containers derive keys from a password with a hash or with PBKDF2, and
-- encrypt with a mode of a block cipher.
--
-- Files, and the sources from the root of the repository:
--   Base       the shared helpers: C arrays as lists (Lists), fixed-width integers with their
--              wrap-around written out (Word), laws of `^`, `|` and `&` (Bits, Xor, XorBytes), byte
--              order, the
--              XOR of buffers and comparison (Bytes: crypto_xor_cpy of src/kernel_compat.h and
--              pogost_memeq of src/generic/memory.c), pointers that may be null (Pointer), and
--              the loop that eats whole blocks of a list (Blocks), a buffer of less than one
--              block in front of a core (Buffering), results that may be -1 (Results).
--   Gost28147  src/generic/gost28147_generic.c: state, S-boxes (Sbox), the 32 rounds `crypt`,
--              encrypt_raw and decrypt_raw (Feistel); the modes cfb_crypt, mac4_raw and
--              imit_cp12 (Modes, Modes/Feedback, Modes/Imit); the functions on the opaque
--              context (Context).
--   Rc2        src/generic/rc2_generic.c: set_key, encrypt_block, decrypt_block, cbc_encrypt and
--              cbc_decrypt, over the table of Rc2/Table; Word, Rounds, Block, Chain
--              and Join hold the proofs.
--   Streebog   src/generic/streebog_generic.c: init, update, final and the compression function
--              `g` over the tables of Streebog/Tables. The members h, N and Sigma of `struct
--              streebog_state` are the record Core, since whole blocks go into these three;
--              Update, Digest, Length and Add hold the proofs.
--   Hmac       src/generic/hmac_streebog_generic.c and src/generic/pbkdf2_generic.c; Parts and
--              Pbkdf2 hold the proofs, Rfc8018 the definition of RFC 8018 and its proof.
--   Kdf        the derivations of src/generic/gost_tls_generic.c: put_be, kdf_tree_256,
--              tls_prf_256, the three key trees, HKDF and its labels.
--   ChaCha20   src/generic/chacha_block_generic.c, src/generic/chacha_generic.c and
--              src/generic/chacha_api.c: the stream cipher (Stream and Seek hold the proofs);
--              src/generic/chacha20poly1305_generic.c: the sealed messages, with the
--              authenticator as a parameter (Aead; Aead/Sealed holds the proofs).
--   Kuznyechik  src/generic/kuznyechik_generic.c and src/kuznyechik.c: the block cipher over the
--              tables of src/generic/kuztable.h (Data has the small ones); Field and Linear are
--              the linear map, Rounds what the tables hold, Cipher and Schedule the proofs. Simd
--              is the key schedule of src/x86_64/kuznyechik_simd.c (Simd/Words, Simd/Same);
--              Interface is the cipher as the parameter that its modes take.
--   KuznyechikModes  the modes of Kuznyechik of src/generic/gost_tls_generic.c, over a block
--              cipher that is a parameter: OMAC, the counter mode with key renewal, export and
--              import of keys; Counter, Omac, Parts and Export hold the proofs. Mgm is the
--              authenticated encryption with the multiplication gf128_mul and the nonces of
--              TLS 1.3; Mgm/Words, Field, Sealed and Nonce hold the proofs.
--   Gost3410   src/generic/gost3410_generic.c: keys, signatures and key agreement, over an
--              interface Ecc for src/generic/ecc_generic.c; Words, Modulo, Sign, Verify and
--              Agree hold the proofs. A256 is src/generic/gost3410_256_generic.c, with and without
--              the functions of src/optimized (interface Optimized), proved in A256/Builds.
--              Tc26 is src/generic/gost3410_256_tc26_generic.c with its own addition of points,
--              over an interface Vli for the arithmetic; Tc26/Scalar, Points, Sign, Verify and
--              Agree hold the proofs. Search and Instance have what the tests need.
--   Gost341194 src/generic/gost3411_94_generic.c: the step function, the sum of blocks, the
--              buffering and the digest; Update and Sum hold the proofs.
--   Sha1       src/generic/sha1_generic.c; Update, Digest and Length hold the proofs.
--   Keybag     src/generic/cryptopro_keybag_generic.c: kdf, wrap and blob_crypt, with proofs in
--              Wrap and Blob.
--   Pfx        src/generic/pfx_generic.c: derivation of keys, MAC and encryption of PKCS 12 with
--              SHA-1 and RC2 (Pad, Derive and Pbe hold the proofs), and the same with the GOST
--              algorithms (Gost, Gost/RoundTrip).
--   Random     src/xoshiro256pp.c and include/libpogost/xoshiro256pp.h; Live holds the proofs.
-- A definition has the name of the C function without the prefix of its component. A name that
-- ends in _loop is a loop of that function, and the names beside it are single statements.
--
-- How the code is read. Bytes and words are numbers; u8 to u64 are casts. A `const u8 *` with
-- its length is a list; where a null pointer is tested it is a Buffer. What a function writes
-- is its result: input and output do not overlap, except in kexp15, whose counter mode reads
-- each byte before it writes that byte. A function that returns -1 gives `none`, and what it
-- had already written is not described. The words of Streebog are read from memory as on a
-- little-endian machine. The clearing of dead buffers is left out.
--
-- Fuel. A loop over input that shrinks by at least one byte in each round takes the length of
-- the input as fuel (cfb_loop, absorb, cbc_encrypt_loop, the crypt_loop of ChaCha20, ctr_loop);
-- a loop over a count of bytes takes that count (prf_loop, expand_loop, pbkdf2_loop);
-- put_be_loop takes 8, the bytes of a size_t; the loops of RC2 take 16, as i and n count 5, 6
-- and 5 rounds; scalar_reduce_loop takes the scalar, as each round takes off 1 or more.
--
-- What the theorems take for granted. The three tables of Kuznyechik, 65536 bytes each, are the
-- record Tables: IsTables says that a row is the image of one byte under the linear map, and the
-- tests compare rows of the source with it. Ecc, Vli, Optimized, BlockCipher and the authenticator
-- of ChaCha20 say what their functions promise. Ecc promises a multiple only for scalars from 2 to
-- n - 3 (the comment of ecc_generic.c on private keys; Fits), and a sum of two multiples only when
-- no addition of its loop meets equal or opposite points (can_add, which calculates that from the
-- scalars); the code of the signatures also lets the scalars 1, n - 2 and n - 1 through. Multiples
-- says that the formulas of gost3410_256_tc26_generic.c are the group of the multiples of the base
-- point; the tests compute that it holds for a small curve.
--
-- Not modelled: the arithmetic of src/generic/ecc_generic.c, a copy of the Linux kernel's, which
-- the signatures take as an interface; the generated field code of src/optimized and of the
-- curve25519 files; Poly1305 and BLAKE2s, copies of other projects' code; the assembly of
-- src/x86_64; the tests.
pub mod Base
pub mod Gost28147
pub mod Rc2
pub mod Streebog
pub mod Hmac
pub mod Kdf
pub mod ChaCha20
pub mod Kuznyechik
pub mod KuznyechikModes
pub mod Random
pub mod Gost341194
pub mod Sha1
pub mod Keybag
pub mod Pfx
pub mod Gost3410
