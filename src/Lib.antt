-- ===== src/Lib.antt =====
-- Verification of the post-quantum tools of tools/pqc: the key encapsulation ML-KEM (tools/pqc/mlkem)
-- and the signature scheme ML-DSA (tools/pqc/mldsa), in their scalar C code.
--
-- Base holds what both share: integers over the native numbers (ℤ, with C's rounding-down shifts as
-- `div`), the conversions to the fixed widths of C (to_u8, u8, i16, i32 and their like), `|`, `&` and `^` as
-- arithmetic, lists for arrays, and tables that are checked entry by entry.
--
-- MlKem has a module for each file of tools/pqc/mlkem, and each definition has the name of the C function
-- it models:
--   Reduce     reduce.h: montgomery_reduce, barrett_reduce, fqmul, basemul on int16_t
--   Verify     verify.c: verify, cmov, cmov_int16
--   Params     mlkem_params.h and the parameter sets of mlkem.c
--   Poly       mlkem_poly.c: bytes, messages, compression to 4 and 5 bits
--   Cbd        cbd.c: the centered binomial distributions
--   Ntt        mlkem_ntt.c: the transform, its inverse, products
--   Polyvec    polyvec.c: vectors, compression to 10 and 11 bits
--   Symmetric  symmetric-shake.c, over an interface of the functions of fips202.h
--   Hashes     the functions of Keccak, put in for that interface
--   Sample     the samplers of mlkem_kpke.c and mlkem_poly.c
--   Kpke, Kem  mlkem_kpke.c and mlkem.c: the public-key encryption, and the key encapsulation above it
-- Keccak is the hash functions, which both directories hold in the same files:
--   Permute    keccak.c: the permutation, with FIPS 202's step mappings, on bits of their own, in
--              Permute/Reference, and their bit operations next to those of C in Permute/Bitwise
--   Sponge     fips202.c: absorbing and squeezing on the 25 words of a state
--   Shake      fips202.c: SHAKE128, SHAKE256, SHA3-256 and SHA3-512 over the sponge
-- Transform is what the two number-theoretic transforms share, and models no code of its own:
--   Evaluate   values of a polynomial, up to congruence
--   Layers, Forward, Inverse
--              a round of a transform over blocks, and what it does to the values of the blocks
--   Roots      the points of a transform, and the test of a table of factors against them
--   Product, Parity, Table
--              products modulo X^n + 1, coefficients of even and odd degree, and reading a table
--   Unique, Determined
--              undoing a round, and the test that the factors can be inverted
-- MlDsa has a module for each part of tools/pqc/mldsa, again with the names of the C functions:
--   Params     mldsa_params.h and the parameter sets of mldsa.c
--   Reduce     mldsa_reduce.h
--   Ntt        mldsa_ntt.c
--   Rounding, Packing, Reject, Poly, Sample, Challenge
--              mldsa_poly.c: rounding and hints, bit packings, rejection loops, operations on a
--              polynomial, the samplers, and the challenge
--   Vectors, Expand
--              polyvec.c: arithmetic, and the sampling of vectors and of the matrix
--   Symmetric  symmetric-shake.c
--   Keys, Signature, Scheme
--              mldsa.c: the encodings of keys, the encoding of signatures with their hints, and key
--              generation, signing and verification above all of these
-- ML-KEM takes the functions of fips202.h as an interface, which those of Keccak meet; ML-DSA calls
-- those of Keccak.
--
-- A polynomial is the list of its coefficients, a vector the list of its polynomials, and an array of
-- bytes a list of numbers. A C function that writes through a pointer returns what it writes, and one
-- that writes two arrays returns the pair. Arithmetic in int and in wider signed types is exact, and every
-- conversion that an assignment or a cast makes is written out; the shift of a negative number rounds
-- down and the conversion to a signed type wraps, as gcc defines both. A loop over an array is a
-- recursion on the list; the loops over len and start of the transforms count their rounds, 128 / len
-- blocks in a layer, and seven (eight for ML-DSA) layers.
--
-- The state of Keccak is the list of its 25 words. An in-place function returns the state, and keccak_state
-- is a record of the words and the position.
--
-- The loops that squeeze until enough is accepted (gen_matrix, poly_uniform, poly_uniform_eta,
-- poly_challenge) have no bound in the code, since they end with the hash function's help only, and
-- neither have the rounds of mldsa_sign_internal behind the label rej. They run on fuel, and the functions
-- above them return `none` where it runs out. The loops of the sponge take a byte a round at least, and
-- their fuel is the number of bytes.
--
-- Not modelled: the vector code (rvv_poly.c, cbd_rvv.c, and the second form of the permutation in
-- keccak.c), which is assembly inside C; the global counters and the traces of the benchmark builds; the
-- tests and the measuring tools, which print and time.
pub mod Base
pub mod Keccak
pub mod MlDsa
pub mod MlKem
pub mod Transform
