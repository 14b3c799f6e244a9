-- ===== src/Keccak/Shake.antt =====
-- The functions of tools/pqc/mlkem/fips202.h, which tools/pqc/mldsa/fips202.c repeats.
pub mod OneShot
use karudeb.Base.{ℕ, ◌-◌, ◌*◌, ◌/◌, ◌++◌, List}
use karudeb.Keccak.Permute.{keccak_f1600_state_permute}
use karudeb.Keccak.Sponge.{
  keccak_init, keccak_absorb, keccak_finalize, keccak_squeeze, keccak_absorb_once,
  keccak_squeezeblocks, store_block,
}

abbrev pub shake128_rate : ℕ
shake128_rate = 168

abbrev pub shake256_rate : ℕ
shake256_rate = 136

abbrev pub sha3_256_rate : ℕ
sha3_256_rate = 136

abbrev pub sha3_512_rate : ℕ
sha3_512_rate = 72

-- keccak_state
pub record KeccakState : Type 0 where
  pub s : List ℕ
  pub pos : ℕ

-- A squeezing function gives its output and the state.
unfoldable pub shake128_init : KeccakState
shake128_init = record { s = keccak_init; pos = 0 }

unfoldable pub shake128_absorb : KeccakState → List ℕ → KeccakState
shake128_absorb state input =
    let (s, pos) = keccak_absorb state.s state.pos shake128_rate input in
    record { s = s; pos = pos }

unfoldable pub shake128_finalize : KeccakState → KeccakState
shake128_finalize state = record {
  s = keccak_finalize state.s state.pos shake128_rate 0x1F;
  pos = shake128_rate;
}

unfoldable pub shake128_squeeze : ℕ → KeccakState → List ℕ × KeccakState
shake128_squeeze outlen state =
    let (out, s, pos) = keccak_squeeze outlen state.s state.pos shake128_rate in
    (out, record { s = s; pos = pos })

unfoldable pub shake128_absorb_once : List ℕ → KeccakState
shake128_absorb_once input = record {
  s = keccak_absorb_once shake128_rate input 0x1F;
  pos = shake128_rate;
}

unfoldable pub shake128_squeezeblocks : ℕ → KeccakState → List ℕ × KeccakState
shake128_squeezeblocks nblocks state =
    let (out, s) = keccak_squeezeblocks nblocks state.s shake128_rate in
    (out, record { s = s; pos = state.pos })

unfoldable pub shake256_init : KeccakState
shake256_init = record { s = keccak_init; pos = 0 }

unfoldable pub shake256_absorb : KeccakState → List ℕ → KeccakState
shake256_absorb state input =
    let (s, pos) = keccak_absorb state.s state.pos shake256_rate input in
    record { s = s; pos = pos }

unfoldable pub shake256_finalize : KeccakState → KeccakState
shake256_finalize state = record {
  s = keccak_finalize state.s state.pos shake256_rate 0x1F;
  pos = shake256_rate;
}

unfoldable pub shake256_squeeze : ℕ → KeccakState → List ℕ × KeccakState
shake256_squeeze outlen state =
    let (out, s, pos) = keccak_squeeze outlen state.s state.pos shake256_rate in
    (out, record { s = s; pos = pos })

unfoldable pub shake256_absorb_once : List ℕ → KeccakState
shake256_absorb_once input = record {
  s = keccak_absorb_once shake256_rate input 0x1F;
  pos = shake256_rate;
}

unfoldable pub shake256_squeezeblocks : ℕ → KeccakState → List ℕ × KeccakState
shake256_squeezeblocks nblocks state =
    let (out, s) = keccak_squeezeblocks nblocks state.s shake256_rate in
    (out, record { s = s; pos = state.pos })

unfoldable pub shake128 : ℕ → List ℕ → List ℕ
shake128 outlen input =
    let nblocks = outlen / shake128_rate in
    let (blocks, state) = shake128_squeezeblocks nblocks (shake128_absorb_once input) in
    blocks ++ (shake128_squeeze (outlen - nblocks * shake128_rate) state).0

unfoldable pub shake256 : ℕ → List ℕ → List ℕ
shake256 outlen input =
    let nblocks = outlen / shake256_rate in
    let (blocks, state) = shake256_squeezeblocks nblocks (shake256_absorb_once input) in
    blocks ++ (shake256_squeeze (outlen - nblocks * shake256_rate) state).0

unfoldable pub sha3_256 : List ℕ → List ℕ
sha3_256 input =
    let s = keccak_f1600_state_permute (keccak_absorb_once sha3_256_rate input 0x06) in
    store_block 4 0 s

unfoldable pub sha3_512 : List ℕ → List ℕ
sha3_512 input =
    let s = keccak_f1600_state_permute (keccak_absorb_once sha3_512_rate input 0x06) in
    store_block 8 0 s
