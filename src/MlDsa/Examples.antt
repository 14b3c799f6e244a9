-- ===== src/MlDsa/Examples.antt =====
-- The theorems on ML-DSA at concrete inputs.
mod Scheme
mod Hints
mod Samplers
mod Transforms
use karudeb.Base.{◌+◌, ◌-◌, ◌*◌, ◌^◌, ◌≤◌, ◌≡◌, refl, arith}
use karudeb.Base.{ℤ, pos, negsuc, pos_part, neg_part, residue, Congruent, List, [], ◌∷◌}
use karudeb.Base.{◌+ℤ◌, ◌-ℤ◌, ◌*ℤ◌, ◌<ℤ◌, ◌≤ℤ◌, div, i32}
use karudeb.Base.{◌⊎◌}
use karudeb.MlDsa.Poly.{poly_chknorm}
use karudeb.MlDsa.Poly.Norm.{IsShort, poly_chknorm_lem}
use karudeb.MlDsa.Params.{q}
use karudeb.MlDsa.Reduce.{montgomery_reduce, reduce32, caddq, freeze}
use karudeb.MlDsa.Reduce.Montgomery.{montgomery_reduce-Congruent}
use karudeb.MlDsa.Rounding.{power2round, decompose_32, decompose_88}
use karudeb.MlDsa.Rounding.HighBits.{IsDecomposition, decompose_32_lem, decompose_88_lem}
use karudeb.MlDsa.Packing.High.{polyt1_pack, polyt1_unpack}
use karudeb.MlDsa.Packing.High.RoundTrip.{t1_unpack-pack}
use karudeb.MlDsa.Packing.Low.{polyt0_pack, polyt0_unpack}
use karudeb.MlDsa.Packing.Low.RoundTrip.{t0_unpack-pack}
use karudeb.MlDsa.Packing.Mask.{polyz_pack_17, polyz_unpack_17, polyz_pack_19, polyz_unpack_19}
use karudeb.MlDsa.Packing.Mask.Narrow.{z_unpack-pack_17}
use karudeb.MlDsa.Packing.Mask.Wide.{z_unpack-pack_19}
use karudeb.MlDsa.Packing.Eta.{polyeta_pack_2, polyeta_unpack_2}
use karudeb.MlDsa.Packing.Eta.RoundTrip.{eta_unpack-pack_2}

montgomery_reduce-Congruent_example :
    Congruent q (montgomery_reduce (negsuc 123456789) *ℤ pos (2 ^ 32)) (negsuc 123456789)
    × (2 ^ 32 * pos_part (montgomery_reduce (negsuc 123456789)) ≤ 0 + 2 ^ 31 * q)
    × (2 ^ 32 * neg_part (montgomery_reduce (negsuc 123456789)) ≤ 123456790 + 2 ^ 31 * q)
montgomery_reduce-Congruent_example = montgomery_reduce-Congruent (negsuc 123456789) (omega arith)

-- At the end of the range the result reaches q.
range_end : montgomery_reduce (pos (2 ^ 31 * q)) ≡ pos q
unfolding montgomery_reduce div ◌-ℤ◌ ◌*ℤ◌ i32 residue
range_end = refl

-- The least value that `reduce32` reaches.
least_value : reduce32 (negsuc 2143289343) ≡ negsuc 6283008
unfolding reduce32 div ◌+ℤ◌ ◌-ℤ◌ ◌*ℤ◌ i32 residue
least_value = refl

decompose_32_example : IsDecomposition 261888 16 8380000 (decompose_32 (pos 8380000))
decompose_32_example = decompose_32_lem 8380000 (omega arith)

decompose_88_example : IsDecomposition 95232 44 1234567 (decompose_88 (pos 1234567))
decompose_88_example = decompose_88_lem 1234567 (omega arith)

abbrev low_parts : List ℤ
low_parts = pos 4096 ∷ negsuc 4094 ∷ pos 0 ∷ negsuc 0 ∷ pos 1 ∷ pos 77 ∷ negsuc 77 ∷ pos 4095 ∷ []

poly_chknorm_example :
    ((poly_chknorm low_parts (pos 4097) ≡ 0) × IsShort 4097 low_parts)
    ⊎ ((poly_chknorm low_parts (pos 4097) ≡ 1) × ¬ IsShort 4097 low_parts)
poly_chknorm_example = poly_chknorm_lem low_parts 4097 (omega arith)
