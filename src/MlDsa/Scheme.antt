-- ===== src/MlDsa/Scheme.antt =====
-- tools/pqc/mldsa/mldsa.c: key generation, signing and verification. A function that samples returns an
-- Option, with `none` for a loop that ran out of fuel. The counters and traces of the benchmark builds
-- (mldsa_sign_iters, MLDSA_PROFILE, MLDSA_SIGN_TRACE) are left out.
pub mod Verifying
pub mod Rounds
pub mod Signing
use karudeb.Base.{ℕ, zero, suc, ◌+◌, ◌-◌, ◌*◌, ◌++◌, ◌==◌, ltb, not, ◌||◌, if◌then◌else◌}
use karudeb.Base.{ℤ, pos, ◌-ℤ◌, List, [], ◌∷◌, take, drop, u8, u16, Bool, true, false}
use karudeb.Base.{Option, none, some, ◌>>=◌}
use karudeb.Keccak.Shake.{
  shake256, shake256_init, shake256_absorb, shake256_finalize, shake256_squeeze,
}
use karudeb.MlDsa.Params.{MldsaParam, seed_sz, crh_sz, tr_sz, rnd_sz}
use karudeb.MlDsa.Poly.{mldsa_poly_ntt}
use karudeb.MlDsa.Vectors.{
  polyvec_matrix_pointwise_montgomery, polyvecl_reduce, polyvecl_add, polyvecl_ntt,
  polyvecl_invntt_tomont, polyvecl_pointwise_poly_montgomery, polyvecl_chknorm, polyveck_reduce,
  polyveck_caddq, polyveck_add, polyveck_sub, polyveck_shiftl, polyveck_ntt, polyveck_invntt_tomont,
  polyveck_pointwise_poly_montgomery, polyveck_chknorm, polyveck_power2round, polyveck_decompose,
  polyveck_make_hint, polyveck_use_hint, polyveck_pack_w1,
}
use karudeb.MlDsa.Challenge.{poly_challenge}
use karudeb.MlDsa.Expand.{
  polyvec_matrix_expand, polyvecl_uniform_eta, polyveck_uniform_eta, polyvecl_uniform_gamma1,
}
use karudeb.MlDsa.Keys.{pack_pk, unpack_pk, SecretKey, pack_sk, unpack_sk}
use karudeb.MlDsa.Signature.{pack_sig, unpack_sig}

-- The incremental hash of two inputs.
unfoldable pub hash_pair : ℕ → List ℕ → List ℕ → List ℕ
hash_pair outlen a b =
    let state = shake256_absorb (shake256_absorb shake256_init a) b in
    (shake256_squeeze outlen (shake256_finalize state)).0

-- The pair (pk, sk).
unfoldable pub mldsa_keygen_internal : ℕ → MldsaParam → List ℕ → Option (List ℕ × List ℕ)
mldsa_keygen_internal fuel par seed =
    let seedbuf =
      shake256 (2 * seed_sz + crh_sz) (take seed_sz seed ++ u8 par.k ∷ u8 par.ell ∷ []) in
    let rho = take seed_sz seedbuf in
    let rhop = take crh_sz (drop seed_sz seedbuf) in
    let key = drop crh_sz (drop seed_sz seedbuf) in
    do
      mat ← polyvec_matrix_expand fuel par rho
      s1 ← polyvecl_uniform_eta fuel par rhop 0
      s2 ← polyveck_uniform_eta fuel par rhop par.ell
      let product = polyvec_matrix_pointwise_montgomery mat (polyvecl_ntt s1)
      let t = polyveck_add (polyveck_invntt_tomont (polyveck_reduce product)) s2
      let (t1, t0) = polyveck_power2round (polyveck_caddq t)
      let pk = pack_pk rho t1
      let tr = shake256 tr_sz (take par.pk_sz pk)
      let sk : SecretKey = record { rho = rho; tr = tr; key = key; t0 = t0; s1 = s1; s2 = s2 }
      some (pk, pack_sk par sk)

-- What `mldsa_sign_internal` holds when it comes to the label rej: the vectors are transformed.
pub record Signer : Type 0 where
  pub mat : List (List (List ℤ))
  pub s1 : List (List ℤ)
  pub s2 : List (List ℤ)
  pub t0 : List (List ℤ)
  pub mu : List ℕ
  pub rhop : List ℕ

unfoldable pub prepare : ℕ → MldsaParam → List ℕ → List ℕ → List ℕ → Option Signer
prepare fuel par sk m rnd =
    let s = unpack_sk par sk in
    let mu = hash_pair crh_sz (take tr_sz s.tr) m in
    let rhop = shake256 crh_sz (s.key ++ (take rnd_sz rnd ++ mu)) in
    do
      mat ← polyvec_matrix_expand fuel par s.rho
      some record {
        mat = mat;
        s1 = polyvecl_ntt s.s1;
        s2 = polyveck_ntt s.s2;
        t0 = polyveck_ntt s.t0;
        mu = mu;
        rhop = rhop;
      }

-- How a round ends: with `goto rej`, or with a signature.
pub data Round : Type 0 where
  rejected : Round
  signed : List ℕ → Round

-- The rest of a round: z, the low bits w0 less c * s2, the product of c and t0, and the hints.
unfoldable pub finish :
    MldsaParam → List ℕ → List (List ℤ) → List (List ℤ) → List (List ℤ) → List (List ℤ) → Round
finish par c z w0 ct0 w1 =
    let (h, count) = polyveck_make_hint par (polyveck_add w0 ct0) w1 0 in
    if not (polyvecl_chknorm z (pos par.gamma1 -ℤ pos par.beta) == 0)
    then rejected
    else if not (polyveck_chknorm w0 (pos par.gamma2 -ℤ pos par.beta) == 0)
    then rejected
    else if not (polyveck_chknorm ct0 (pos par.gamma2) == 0)
    then rejected
    else if ltb par.omega_ count
    then rejected
    else signed (pack_sig par c z h)

-- From the label rej on.
unfoldable pub sign_round : ℕ → MldsaParam → Signer → ℕ → Option Round
sign_round fuel par s nonce =
    let y = polyvecl_uniform_gamma1 par s.rhop nonce in
    let product = polyvec_matrix_pointwise_montgomery s.mat (polyvecl_ntt y) in
    let w = polyveck_caddq (polyveck_invntt_tomont (polyveck_reduce product)) in
    let (w1, w0) = polyveck_decompose par w in
    let c = hash_pair par.cp_sz s.mu (take (par.k * par.w1p_sz) (polyveck_pack_w1 par w1)) in
    do
      challenge ← poly_challenge fuel par c
      let cp = mldsa_poly_ntt challenge
      let cs1 = polyvecl_invntt_tomont (polyvecl_pointwise_poly_montgomery cp s.s1)
      let z = polyvecl_reduce (polyvecl_add cs1 y)
      let cs2 = polyveck_invntt_tomont (polyveck_pointwise_poly_montgomery cp s.s2)
      let w0' = polyveck_reduce (polyveck_sub w0 cs2)
      let ct0 =
          polyveck_reduce (polyveck_invntt_tomont (polyveck_pointwise_poly_montgomery cp s.t0))
      some (finish par c z w0' ct0 w1)

-- The rounds, with nonce++ in uint16_t.
unfoldable pub sign_loop : ℕ → ℕ → MldsaParam → Signer → ℕ → Option (List ℕ)
sign_loop fuel zero par s nonce = none
sign_loop fuel (suc rounds) par s nonce =
    let rest = sign_loop fuel rounds par s (u16 (nonce + 1)) in
    do
      end_of_round ← sign_round fuel par s nonce
      elim end_of_round [ rejected ↦ rest | signed sig ↦ some sig ]

-- The signature, with the fuel of the samplers and the number of rounds.
unfoldable pub mldsa_sign_internal : ℕ → ℕ → MldsaParam → List ℕ → List ℕ → List ℕ → Option (List ℕ)
mldsa_sign_internal fuel rounds par sk m rnd = do
  s ← prepare fuel par sk m rnd
  sign_loop fuel rounds par s 0

-- The last loop of `mldsa_verify_internal`: 1 when all `left` bytes are the same.
unfoldable pub same_bytes : ℕ → List ℕ → List ℕ → ℕ
same_bytes zero c c2 = 1
same_bytes (suc left) (x ∷ c) (y ∷ c2) = if x == y then same_bytes left c c2 else 0
same_bytes (suc left) [] c2 = 0
same_bytes (suc left) (x ∷ c) [] = 0

-- The part of `mldsa_verify_internal` behind the checks of the signature.
unfoldable pub recompute :
    ℕ → MldsaParam → List ℕ → List ℕ → List ℕ → List (List ℤ) → List (List ℕ) → Option ℕ
recompute fuel par pk m c z h =
    let (rho, t1) = unpack_pk par pk in
    let mu = hash_pair crh_sz (shake256 tr_sz (take par.pk_sz pk)) m in
    do
      challenge ← poly_challenge fuel par c
      mat ← polyvec_matrix_expand fuel par rho
      let product = polyvec_matrix_pointwise_montgomery mat (polyvecl_ntt z)
      let cp = mldsa_poly_ntt challenge
      let ct1 = polyveck_pointwise_poly_montgomery cp (polyveck_ntt (polyveck_shiftl t1))
      let w = polyveck_invntt_tomont (polyveck_reduce (polyveck_sub product ct1))
      let w1 = polyveck_use_hint par (polyveck_caddq w) h
      let packed = take (par.k * par.w1p_sz) (polyveck_pack_w1 par w1)
      some (same_bytes par.cp_sz c (hash_pair par.cp_sz mu packed))

-- The norm of z, and the rest; `none` is what `unpack_sig` returns 1 with.
unfoldable pub verify_parts :
    ℕ → MldsaParam → List ℕ → List ℕ → Option (List ℕ × List (List ℤ) × List (List ℕ)) → Option ℕ
verify_parts fuel par pk m none = some 0
verify_parts fuel par pk m (some (c, z, h)) =
    if polyvecl_chknorm z (pos par.gamma1 -ℤ pos par.beta) == 0
    then recompute fuel par pk m c z h
    else some 0

-- sig_sz is the length that the caller gives for sig.
unfoldable pub mldsa_verify_internal : ℕ → MldsaParam → List ℕ → List ℕ → List ℕ → ℕ → Option ℕ
mldsa_verify_internal fuel par pk m sig sig_sz =
    if sig_sz == par.sig_sz then verify_parts fuel par pk m (unpack_sig par sig) else some 0
