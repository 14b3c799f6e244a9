-- ===== src/MlKem/Kem.antt =====
-- tools/pqc/mlkem/mlkem.c: the key encapsulation. The C functions write through pointers and return
-- 0; here they return what they write.
pub mod Decaps
pub mod Agreement
use karudeb.Base.{
  ℕ, ◌+◌, ◌-◌, ◌*◌, ◌++◌, List, take, drop, Option, some, ◌>>=◌, ◌==◌, if◌then◌else◌,
}
use karudeb.MlKem.Params.{MlkemParam, sym_sz, ss_sz, poly_sz}
use karudeb.MlKem.Symmetric.{Fips202, kyber_shake256_rkprf}
use karudeb.MlKem.Verify.{verify, cmov}
use karudeb.MlKem.Kpke.{kpke_keygen, kpke_encrypt, kpke_decrypt}

module _ (f : Fips202) where
  -- The pair (ek, dk).
  unfoldable pub mlkem_keygen_internal : ℕ → MlkemParam → List ℕ → List ℕ → Option (List ℕ × List ℕ)
  mlkem_keygen_internal fuel par d z = do
    (ek, dk) ← kpke_keygen f fuel par d
    some (ek, dk ++ (ek ++ (f.sha3_256 ek ++ take sym_sz z)))

  -- The pair (kk, ct).
  unfoldable pub mlkem_encaps_internal : ℕ → MlkemParam → List ℕ → List ℕ → Option (List ℕ × List ℕ)
  mlkem_encaps_internal fuel par ek m =
      let buf = take sym_sz m ++ f.sha3_256 (take par.ek_sz ek) in
      let kr = f.sha3_512 buf in
      do ct ← kpke_encrypt f fuel par ek buf (drop sym_sz kr); some (take sym_sz kr, ct)

  -- The shared secret kp.
  unfoldable pub mlkem_decaps_internal : ℕ → MlkemParam → List ℕ → List ℕ → Option (List ℕ)
  mlkem_decaps_internal fuel par dk ct =
      let pk = drop (par.k * poly_sz) dk in
      let m' = kpke_decrypt f par dk ct in
      let buf = m' ++ take sym_sz (drop (par.dk_sz - 2 * sym_sz) dk) in
      let kr = f.sha3_512 buf in
      do
        cmp ← kpke_encrypt f fuel par pk buf (drop sym_sz kr)
        let fail = verify ct cmp par.ct_sz
        let kp = kyber_shake256_rkprf f par (drop (par.dk_sz - sym_sz) dk) ct
        some (cmov kp kr sym_sz (if fail == 0 then 1 else 0))
