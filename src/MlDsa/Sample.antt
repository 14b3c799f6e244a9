-- ===== src/MlDsa/Sample.antt =====
-- The samplers of tools/pqc/mldsa/mldsa_poly.c that read a stream until they have enough: `none` is fuel
-- that ran out.
pub mod Uniform
pub mod Eta
pub mod Enough
use karudeb.Base.{ℕ, zero, suc, ◌+◌, ◌-◌, ◌/◌, ◌%◌, ◌++◌, ◌==◌, ltb}
use karudeb.Base.{ℤ, List, [], length, take, drop, if◌then◌else◌}
use karudeb.Base.{u16, Option, none, some}
use karudeb.Keccak.Shake.{KeccakState, shake128_squeezeblocks, shake256_squeezeblocks}
use karudeb.MlDsa.Params.{MldsaParam, n}
use karudeb.MlDsa.Packing.Mask.{polyz_unpack}
use karudeb.MlDsa.Reject.{mldsa_rej_uniform, rej_eta_2, rej_eta_4}
use karudeb.MlDsa.Symmetric.{
  stream128_blockbytes, stream256_blockbytes, dilithium_shake128_stream_init,
  dilithium_shake256_stream_init,
}

-- POLY_UNIFORM_NBLOCKS
abbrev pub poly_uniform_nblocks : ℕ
poly_uniform_nblocks = (768 + stream128_blockbytes - 1) / stream128_blockbytes

-- The `while` loop of `poly_uniform` on what is sampled so far. The bytes that did not make up a group
-- of three stay in front of the next block.
unfoldable pub uniform_loop : ℕ → List ℤ → List ℕ → KeccakState → Option (List ℤ)
uniform_loop zero a buf state = if ltb (length a) n then none else some a
uniform_loop (suc fuel) a buf state =
    let off = length buf % 3 in
    let (block, state') = shake128_squeezeblocks 1 state in
    let buf' = drop (length buf - off) buf ++ block in
    let rest = uniform_loop fuel (a ++ mldsa_rej_uniform (n - length a) buf') buf' state' in
    if ltb (length a) n then rest else some a

unfoldable pub poly_uniform : ℕ → List ℕ → ℕ → Option (List ℤ)
poly_uniform fuel seed nonce =
    let (buf, state) =
      shake128_squeezeblocks poly_uniform_nblocks
        (dilithium_shake128_stream_init seed (u16 nonce)) in
    uniform_loop fuel (mldsa_rej_uniform n buf) buf state

-- The `while` loop of `poly_uniform_eta_2` and of `poly_uniform_eta_4`, with their rejection loop.
unfoldable pub eta_loop : (ℕ → List ℕ → List ℤ) → ℕ → List ℤ → KeccakState → Option (List ℤ)
eta_loop rej zero a state = if ltb (length a) n then none else some a
eta_loop rej (suc fuel) a state =
    let (buf, state') = shake256_squeezeblocks 1 state in
    let rest = eta_loop rej fuel (a ++ rej (n - length a) buf) state' in
    if ltb (length a) n then rest else some a

-- POLY_UNIFORM_ETA_NBLOCKS_2 and POLY_UNIFORM_ETA_NBLOCKS_4
abbrev pub poly_uniform_eta_nblocks_2 : ℕ
poly_uniform_eta_nblocks_2 = (136 + stream256_blockbytes - 1) / stream256_blockbytes

abbrev pub poly_uniform_eta_nblocks_4 : ℕ
poly_uniform_eta_nblocks_4 = (227 + stream256_blockbytes - 1) / stream256_blockbytes

unfoldable pub poly_uniform_eta_2 : ℕ → List ℕ → ℕ → Option (List ℤ)
poly_uniform_eta_2 fuel seed nonce =
    let (buf, state) =
      shake256_squeezeblocks poly_uniform_eta_nblocks_2
        (dilithium_shake256_stream_init seed nonce) in
    eta_loop rej_eta_2 fuel (rej_eta_2 n buf) state

unfoldable pub poly_uniform_eta_4 : ℕ → List ℕ → ℕ → Option (List ℤ)
poly_uniform_eta_4 fuel seed nonce =
    let (buf, state) =
      shake256_squeezeblocks poly_uniform_eta_nblocks_4
        (dilithium_shake256_stream_init seed nonce) in
    eta_loop rej_eta_4 fuel (rej_eta_4 n buf) state

-- For another eta than 2 and 4 the code writes nothing.
unfoldable pub poly_uniform_eta : ℕ → MldsaParam → List ℕ → ℕ → Option (List ℤ)
poly_uniform_eta fuel par seed nonce =
    if par.eta == 2
    then poly_uniform_eta_2 fuel seed nonce
    else if par.eta == 4
    then poly_uniform_eta_4 fuel seed nonce
    else some []

-- polyz_unpack reads par->pzp_sz bytes of the blocks.
unfoldable pub poly_uniform_gamma1 : MldsaParam → List ℕ → ℕ → List ℤ
poly_uniform_gamma1 par seed nonce =
    let nblocks = (par.pzp_sz + stream256_blockbytes - 1) / stream256_blockbytes in
    let state = dilithium_shake256_stream_init seed (u16 nonce) in
    polyz_unpack par (take par.pzp_sz (shake256_squeezeblocks nblocks state).0)
