-- ===== src/MlDsa/Signature/RoundTrip.antt =====
-- A signature is read back from its encoding.
use karudeb.Base.{ℕ, ◌^◌, ◌<◌, ◌≡◌, ◌⊎◌, inl, inr, refl, arith}
use karudeb.Base.{ℤ, List, ◌++◌, length, All}
use karudeb.Base.{some}
use karudeb.MlDsa.Params.{MldsaParam, n}
use karudeb.MlDsa.Packing.Mask.{polyz_pack, polyz_unpack}
use karudeb.MlDsa.Packing.Mask.Narrow.{Fits18, z_unpack-pack_17}
use karudeb.MlDsa.Packing.Mask.Wide.{Fits20, z_unpack-pack_19}
use karudeb.MlDsa.Packing.Sizes.{length-polyz_pack_17, length-polyz_pack_19}
use karudeb.MlDsa.Keys.{pack_each}
use karudeb.MlDsa.Keys.RoundTrip.{IsCoded, IsVector, all-IsCoded, vector_first, seed_first}
use karudeb.MlDsa.Signature.{encode_hints, pack_sig, unpack_sig}
use karudeb.MlDsa.Signature.Canonical.{IsHints, decode-encode_hints}

-- A vector z of par->ell polynomials of 256 coefficients from -gamma1 + 1 to gamma1, where gamma1 is
-- 2^17 or 2^19.
abbrev pub IsMask : MldsaParam → List (List ℤ) → Type 0
IsMask par z =
    ((par.gamma1 ≡ 2 ^ 17) × (par.pzp_sz ≡ 576) × IsVector Fits18 par.ell z)
    ⊎ ((par.gamma1 ≡ 2 ^ 19) × (par.pzp_sz ≡ 640) × IsVector Fits20 par.ell z)

narrow_one :
    (par : MldsaParam)
    → par.gamma1 ≡ 2 ^ 17
    → par.pzp_sz ≡ 576
    → (p : List ℤ) → length p ≡ n
    → All Fits18 p
    → IsCoded (polyz_pack par) (polyz_unpack par) par.pzp_sz p
unfolding polyz_pack polyz_unpack
narrow_one par e size p l h =
    rw (e, size) (length-polyz_pack_17 64 p (omega arith), z_unpack-pack_17 64 p (omega arith) h)

wide_one :
    (par : MldsaParam)
    → par.gamma1 ≡ 2 ^ 19
    → par.pzp_sz ≡ 640
    → (p : List ℤ) → length p ≡ n
    → All Fits20 p
    → IsCoded (polyz_pack par) (polyz_unpack par) par.pzp_sz p
unfolding polyz_pack polyz_unpack
wide_one par e size p l h =
    rw (e, size) (length-polyz_pack_19 128 p (omega arith), z_unpack-pack_19 128 p (omega arith) h)

mask-IsCoded :
    (par : MldsaParam) (z : List (List ℤ))
    → IsMask par z
    → (length z ≡ par.ell) × All (IsCoded (polyz_pack par) (polyz_unpack par) par.pzp_sz) z
mask-IsCoded par z (inl (e, size, (l, h))) = (
  l,
  all-IsCoded Fits18 (polyz_pack par) (polyz_unpack par) par.pzp_sz (narrow_one par e size) z h,
)
mask-IsCoded par z (inr (e, size, (l, h))) =
    (l, all-IsCoded Fits20 (polyz_pack par) (polyz_unpack par) par.pzp_sz (wide_one par e size) z h)

-- For par->omega below 256, a challenge's seed of par->cp_sz bytes, par->ell polynomials z of coefficients
-- from -gamma1 + 1 to gamma1, where gamma1 is 2^17 with 576 bytes or 2^19 with 640 bytes for a polynomial,
-- and hints for the parameter set are read back by `unpack_sig` from what `pack_sig` wrote.
pub unpack-pack_sig :
    (par : MldsaParam) (c : List ℕ) (z : List (List ℤ)) (h : List (List ℕ))
    → par.omega_ < 256
    → length c ≡ par.cp_sz
    → IsMask par z
    → IsHints par h
    → unpack_sig par (pack_sig par c z h) ≡ some (c, z, h)
unfolding pack_sig unpack_sig
unpack-pack_sig par c z h small size mask hints =
    let hs = encode_hints par h in
    let (l, coded) = mask-IsCoded par z mask in
    let (seed, d0) = seed_first par.cp_sz c (pack_each (polyz_pack par) z ++ hs) size in
    let (zs, d1) =
      vector_first (polyz_pack par) (polyz_unpack par) par.pzp_sz par.ell z hs l coded in
    rw (seed, d0, zs, d1, decode-encode_hints par h small hints) refl
