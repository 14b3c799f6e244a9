-- ===== src/MlDsa/Symmetric.antt =====
-- tools/pqc/mldsa/symmetric-shake.c and the block sizes of symmetric.h.
use karudeb.Base.{ℕ, ◌>>◌, List, [], ◌∷◌, take, u8}
use karudeb.Keccak.Shake.{
  KeccakState, shake128_rate, shake256_rate, shake128_init, shake128_absorb, shake128_finalize,
  shake256_init, shake256_absorb, shake256_finalize,
}
use karudeb.MlDsa.Params.{seed_sz, crh_sz}

abbrev pub stream128_blockbytes : ℕ
stream128_blockbytes = shake128_rate

abbrev pub stream256_blockbytes : ℕ
stream256_blockbytes = shake256_rate

-- The nonce is a uint16_t.
unfoldable pub dilithium_shake128_stream_init : List ℕ → ℕ → KeccakState
dilithium_shake128_stream_init seed nonce =
    let t = u8 nonce ∷ u8 (nonce >> 8) ∷ [] in
    let state = shake128_absorb shake128_init (take seed_sz seed) in
    shake128_finalize (shake128_absorb state t)

unfoldable pub dilithium_shake256_stream_init : List ℕ → ℕ → KeccakState
dilithium_shake256_stream_init seed nonce =
    let t = u8 nonce ∷ u8 (nonce >> 8) ∷ [] in
    let state = shake256_absorb shake256_init (take crh_sz seed) in
    shake256_finalize (shake256_absorb state t)
