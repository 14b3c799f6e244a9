-- ===== src/MlKem/Symmetric.antt =====
-- tools/pqc/mlkem/symmetric.h and symmetric-shake.c over the functions of fips202.h, which are an
-- interface here: each gives the bytes that the C function writes.
use karudeb.Base.{ℕ, ◌*◌, ◌≡◌, List, [], ◌∷◌, ◌++◌, length, take, All}
use karudeb.MlKem.Verify.Compare.{IsByte}
use karudeb.MlKem.Params.{MlkemParam, sym_sz, ss_sz}

-- SHAKE128_RATE
abbrev pub xof_blockbytes : ℕ
xof_blockbytes = 168

-- A keccak_state is of the type State. The squeezing functions return their output and the state.
pub record Fips202 : Type 1 where
  pub State : Type 0
  pub sha3_256 : List ℕ → List ℕ
  pub sha3_512 : List ℕ → List ℕ
  pub shake256 : ℕ → List ℕ → List ℕ
  pub shake128_absorb_once : List ℕ → State
  pub shake128_squeezeblocks : ℕ → State → List ℕ × State
  pub shake256_init : State
  pub shake256_absorb : State → List ℕ → State
  pub shake256_finalize : State → State
  pub shake256_squeeze : ℕ → State → List ℕ × State

-- The lengths of the outputs, and that they are bytes. A state is squeezed after it was finalized.
pub record HasOutputs (f : Fips202) : Type 0 where
  pub length-sha3_256 : (m : List ℕ) → length (f.sha3_256 m) ≡ 32
  pub length-sha3_512 : (m : List ℕ) → length (f.sha3_512 m) ≡ 64
  pub length-shake256 : (n : ℕ) (m : List ℕ) → length (f.shake256 n m) ≡ n
  pub length-squeezeblocks :
      (n : ℕ) (s : f.State) → length (f.shake128_squeezeblocks n s).0 ≡ xof_blockbytes * n
  pub length-squeeze :
      (n : ℕ) (s : f.State) → length (f.shake256_squeeze n (f.shake256_finalize s)).0 ≡ n
  pub bytes-sha3_512 : (m : List ℕ) → All IsByte (f.sha3_512 m)
  pub bytes-squeeze :
      (n : ℕ) (s : f.State) → All IsByte (f.shake256_squeeze n (f.shake256_finalize s)).0

module _ (f : Fips202) where
  unfoldable pub kyber_shake128_absorb : List ℕ → ℕ → ℕ → f.State
  kyber_shake128_absorb seed x y = f.shake128_absorb_once (take sym_sz seed ++ x ∷ y ∷ [])

  unfoldable pub kyber_shake256_prf : ℕ → List ℕ → ℕ → List ℕ
  kyber_shake256_prf outlen key nonce = f.shake256 outlen (take sym_sz key ++ nonce ∷ [])

  unfoldable pub kyber_shake256_rkprf : MlkemParam → List ℕ → List ℕ → List ℕ
  kyber_shake256_rkprf par key ct_in =
      let s = f.shake256_init in
      let s' = f.shake256_absorb s (take sym_sz key) in
      let s'' = f.shake256_absorb s' (take par.ct_sz ct_in) in
      (f.shake256_squeeze ss_sz (f.shake256_finalize s'')).0
