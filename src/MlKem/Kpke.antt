-- ===== src/MlKem/Kpke.antt =====
-- tools/pqc/mlkem/mlkem_kpke.c: the public-key encryption below ML-KEM. The functions that sample the
-- matrix return an Option, with `none` for a sampling loop that ran out of fuel.
use karudeb.Base.{ℕ, ◌+◌, ◌*◌, ◌/◌, ◌++◌, map, ℤ, List, [], ◌∷◌, take, drop, true, false, u8}
use karudeb.Base.{Option, some, ◌>>=◌}
use karudeb.MlKem.Params.{MlkemParam, n, sym_sz, poly_sz}
use karudeb.MlKem.Poly.{poly_compress, poly_decompress, poly_frommsg, poly_tomsg}
use karudeb.MlKem.Ntt.{
  mlkem_poly_invntt_tomont, poly_tomont, mlkem_poly_add, mlkem_poly_sub, mlkem_poly_reduce,
}
use karudeb.MlKem.Polyvec.{
  polyvec_compress, polyvec_decompress, polyvec_tobytes, polyvec_frombytes, polyvec_ntt,
  polyvec_invntt_tomont, polyvec_basemul_acc_montgomery, polyvec_reduce, polyvec_add,
}
use karudeb.MlKem.Symmetric.{Fips202}
use karudeb.MlKem.Sample.{gen_matrix, noise_eta1, noise_eta2, poly_getnoise_eta2}

unfoldable pub pack_ek : List (List ℤ) → List ℕ → List ℕ
pack_ek ek seed = polyvec_tobytes ek ++ take sym_sz seed

unfoldable pub unpack_ek : MlkemParam → List ℕ → List (List ℤ) × List ℕ
unpack_ek par packedek =
    (polyvec_frombytes par packedek, take sym_sz (drop (par.k * poly_sz) packedek))

unfoldable pub pack_dk : List (List ℤ) → List ℕ
pack_dk dk = polyvec_tobytes dk

unfoldable pub unpack_dk : MlkemParam → List ℕ → List (List ℤ)
unpack_dk par packeddk = polyvec_frombytes par packeddk

unfoldable pub pack_ciphertext : MlkemParam → List (List ℤ) → List ℤ → List ℕ
pack_ciphertext par b v = polyvec_compress par b ++ poly_compress par v

-- poly_decompress reads the 32 par->dv bytes of one polynomial.
unfoldable pub unpack_ciphertext : MlkemParam → List ℕ → List (List ℤ) × List ℤ
unpack_ciphertext par c = (
  polyvec_decompress par c,
  poly_decompress par (take (par.dv * (n / 8)) (drop (par.k * par.du * (n / 8)) c)),
)

module _ (f : Fips202) where
  -- The pair (ek, dk).
  unfoldable pub kpke_keygen : ℕ → MlkemParam → List ℕ → Option (List ℕ × List ℕ)
  kpke_keygen fuel par d =
      let buf = f.sha3_512 (take sym_sz d ++ u8 par.k ∷ []) in
      let publicseed = take sym_sz buf in
      let noiseseed = drop sym_sz buf in
      let dkpv = polyvec_ntt (noise_eta1 f par par.k noiseseed 0) in
      let e = polyvec_ntt (noise_eta1 f par par.k noiseseed par.k) in
      do
        a ← gen_matrix f fuel par publicseed false
        let products = map (λ row. poly_tomont (polyvec_basemul_acc_montgomery row dkpv)) a
        let ekpv = polyvec_reduce (polyvec_add products e)
        some (pack_ek ekpv publicseed, pack_dk dkpv)

  unfoldable pub kpke_encrypt : ℕ → MlkemParam → List ℕ → List ℕ → List ℕ → Option (List ℕ)
  kpke_encrypt fuel par ek m r =
      let ekpv = (unpack_ek par ek).0 in
      let seed = (unpack_ek par ek).1 in
      let k = poly_frommsg (take sym_sz m) in
      let sp = polyvec_ntt (noise_eta1 f par par.k r 0) in
      let ep = noise_eta2 f par.k r par.k in
      let epp = poly_getnoise_eta2 f r (par.k + par.k) in
      do
        at ← gen_matrix f fuel par seed true
        let b = polyvec_invntt_tomont (map (λ row. polyvec_basemul_acc_montgomery row sp) at)
        let v = mlkem_poly_invntt_tomont (polyvec_basemul_acc_montgomery ekpv sp)
        let b' = polyvec_reduce (polyvec_add b ep)
        let v' = mlkem_poly_reduce (mlkem_poly_add (mlkem_poly_add v epp) k)
        some (pack_ciphertext par b' v')

  unfoldable pub kpke_decrypt : MlkemParam → List ℕ → List ℕ → List ℕ
  kpke_decrypt par dk c =
      let b = (unpack_ciphertext par c).0 in
      let v = (unpack_ciphertext par c).1 in
      let dkpv = unpack_dk par dk in
      let mp = polyvec_basemul_acc_montgomery dkpv (polyvec_ntt b) in
      let mp' = mlkem_poly_sub v (mlkem_poly_invntt_tomont mp) in poly_tomsg (mlkem_poly_reduce mp')
