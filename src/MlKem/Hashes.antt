-- ===== src/MlKem/Hashes.antt =====
-- The functions of tools/pqc/mlkem/fips202.c, put in for the interface that the other modules take.
use karudeb.Keccak.Shake.{
  KeccakState, shake128_absorb_once, shake128_squeezeblocks, shake256_init, shake256_absorb,
  shake256_finalize, shake256_squeeze, shake256, sha3_256, sha3_512,
}
use karudeb.MlKem.Symmetric.{Fips202}

abbrev pub fips202 : Fips202
fips202 = record {
  State = KeccakState;
  sha3_256 = sha3_256;
  sha3_512 = sha3_512;
  shake256 = shake256;
  shake128_absorb_once = shake128_absorb_once;
  shake128_squeezeblocks = shake128_squeezeblocks;
  shake256_init = shake256_init;
  shake256_absorb = shake256_absorb;
  shake256_finalize = shake256_finalize;
  shake256_squeeze = shake256_squeeze;
}
