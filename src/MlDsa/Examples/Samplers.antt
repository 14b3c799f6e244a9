-- ===== src/MlDsa/Examples/Samplers.antt =====
-- The theorems on the samplers of ML-DSA at concrete inputs.
use karudeb.Base.{◌+◌, ◌≡◌, refl, inr, leb, leb→le, true, some, take, length, replicate, All, u16}
use karudeb.Keccak.Permute.{
  not_64, rol, chi, round, rounds, copy_from_state, copy_to_state, keccak_f1600_state_permute,
}
use karudeb.Keccak.Shake.{
  shake128_rate, shake256_rate, shake128_init, shake128_absorb, shake128_finalize,
}
use karudeb.Keccak.Sponge.{
  keccak_init, xor_word, xor_byte, xor_bytes, absorb_loop, keccak_absorb, keccak_finalize,
  store64_loop, store64, store_block, keccak_squeezeblocks,
}
use karudeb.MlDsa.Params.{mldsa_65}
use karudeb.MlDsa.Symmetric.{dilithium_shake128_stream_init, dilithium_shake256_stream_init}
use karudeb.MlDsa.Sample.{poly_uniform_nblocks, poly_uniform, poly_uniform_eta}
use karudeb.MlDsa.Sample.Uniform.{candidates, accepted, first_coefficients, poly_uniform_lem}
use karudeb.MlDsa.Sample.Enough.{IsCoefficient, supply, poly_uniform-ends}
use karudeb.MlDsa.Sample.Eta.{nibbles, eta_values, poly_uniform_eta_lem}

poly_uniform_example :
    poly_uniform 2 (replicate 32 5) 258
    ≡ first_coefficients (
        accepted (
          candidates
            (keccak_squeezeblocks
              (poly_uniform_nblocks + 2)
              (dilithium_shake128_stream_init (replicate 32 5) (u16 258)).s
              shake128_rate).0))
poly_uniform_example = poly_uniform_lem 2 (replicate 32 5) 258

-- The first five blocks of this stream are enough.
stream_suffices : leb 256 (length (supply 0 (replicate 32 5) 258)) ≡ true
unfolding dilithium_shake128_stream_init shake128_init shake128_absorb shake128_finalize keccak_init
    xor_word xor_byte xor_bytes keccak_absorb absorb_loop keccak_finalize keccak_squeezeblocks
    store_block store64 store64_loop keccak_f1600_state_permute rounds round not_64 rol chi
    copy_from_state copy_to_state
stream_suffices = refl

poly_uniform-ends_example :
    (poly_uniform (0 + 7) (replicate 32 5) 258 ≡ some (take 256 (supply 0 (replicate 32 5) 258)))
    × (length (take 256 (supply 0 (replicate 32 5) 258)) ≡ 256)
    × All IsCoefficient (take 256 (supply 0 (replicate 32 5) 258))
poly_uniform-ends_example =
    poly_uniform-ends 0 7 (replicate 32 5) 258 (leb→le 256 _ stream_suffices)

poly_uniform_eta_example :
    poly_uniform_eta 1 mldsa_65 (replicate 64 5) 3
    ≡ first_coefficients (
        eta_values 4 (
          nibbles
            (keccak_squeezeblocks
              (2 + 1)
              (dilithium_shake256_stream_init (replicate 64 5) 3).s
              shake256_rate).0))
poly_uniform_eta_example = poly_uniform_eta_lem 1 mldsa_65 (replicate 64 5) 3 (inr refl)
