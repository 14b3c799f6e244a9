-- ===== src/MlDsa/Vectors.antt =====
-- The vectors of tools/pqc/mldsa/polyvec.c: the list of their par->ell or par->k polynomials, over
-- which the loops run.
pub mod Products
use karudeb.Base.{ℕ, ◌+◌, ◌==◌, if◌then◌else◌, map, ℤ, List, [], ◌∷◌, ◌++◌, zip_with, u32}
use karudeb.MlDsa.Params.{MldsaParam}
use karudeb.MlDsa.Packing.High.{polyw1_pack}
use karudeb.MlDsa.Poly.{
  mldsa_poly_reduce, poly_caddq, mldsa_poly_add, mldsa_poly_sub, poly_shiftl, mldsa_poly_ntt,
  mldsa_poly_invntt_tomont, poly_pointwise_montgomery, poly_power2round, poly_decompose,
  poly_make_hint, poly_use_hint, poly_chknorm,
}

unfoldable pub polyvecl_reduce : List (List ℤ) → List (List ℤ)
polyvecl_reduce v = map mldsa_poly_reduce v

unfoldable pub polyvecl_add : List (List ℤ) → List (List ℤ) → List (List ℤ)
polyvecl_add u v = zip_with mldsa_poly_add u v

unfoldable pub polyvecl_ntt : List (List ℤ) → List (List ℤ)
polyvecl_ntt v = map mldsa_poly_ntt v

unfoldable pub polyvecl_invntt_tomont : List (List ℤ) → List (List ℤ)
polyvecl_invntt_tomont v = map mldsa_poly_invntt_tomont v

unfoldable pub polyvecl_pointwise_poly_montgomery : List ℤ → List (List ℤ) → List (List ℤ)
polyvecl_pointwise_poly_montgomery a v = map (poly_pointwise_montgomery a) v

-- The loop from i = 1 on: each product is added to w.
unfoldable pub pointwise_acc : List ℤ → List (List ℤ) → List (List ℤ) → List ℤ
pointwise_acc w (u ∷ us) (v ∷ vs) =
    let t = poly_pointwise_montgomery u v in pointwise_acc (mldsa_poly_add w t) us vs
pointwise_acc w [] vs = w
pointwise_acc w (u ∷ us) [] = w

unfoldable pub polyvecl_pointwise_acc_montgomery : List (List ℤ) → List (List ℤ) → List ℤ
unfolding pointwise_acc
polyvecl_pointwise_acc_montgomery (u ∷ us) (v ∷ vs) =
    pointwise_acc (poly_pointwise_montgomery u v) us vs
polyvecl_pointwise_acc_montgomery [] vs = []
polyvecl_pointwise_acc_montgomery (u ∷ us) [] = []

unfoldable pub polyvec_matrix_pointwise_montgomery :
    List (List (List ℤ)) → List (List ℤ) → List (List ℤ)
polyvec_matrix_pointwise_montgomery mat v = map (λ row. polyvecl_pointwise_acc_montgomery row v) mat

unfoldable pub polyvecl_chknorm : List (List ℤ) → ℤ → ℕ
polyvecl_chknorm [] bound = 0
polyvecl_chknorm (p ∷ v) bound = if poly_chknorm p bound == 0 then polyvecl_chknorm v bound else 1

unfoldable pub polyveck_reduce : List (List ℤ) → List (List ℤ)
polyveck_reduce v = map mldsa_poly_reduce v

unfoldable pub polyveck_caddq : List (List ℤ) → List (List ℤ)
polyveck_caddq v = map poly_caddq v

unfoldable pub polyveck_add : List (List ℤ) → List (List ℤ) → List (List ℤ)
polyveck_add u v = zip_with mldsa_poly_add u v

unfoldable pub polyveck_sub : List (List ℤ) → List (List ℤ) → List (List ℤ)
polyveck_sub u v = zip_with mldsa_poly_sub u v

unfoldable pub polyveck_shiftl : List (List ℤ) → List (List ℤ)
polyveck_shiftl v = map poly_shiftl v

unfoldable pub polyveck_ntt : List (List ℤ) → List (List ℤ)
polyveck_ntt v = map mldsa_poly_ntt v

unfoldable pub polyveck_invntt_tomont : List (List ℤ) → List (List ℤ)
polyveck_invntt_tomont v = map mldsa_poly_invntt_tomont v

unfoldable pub polyveck_pointwise_poly_montgomery : List ℤ → List (List ℤ) → List (List ℤ)
polyveck_pointwise_poly_montgomery a v = map (poly_pointwise_montgomery a) v

unfoldable pub polyveck_chknorm : List (List ℤ) → ℤ → ℕ
polyveck_chknorm [] bound = 0
polyveck_chknorm (p ∷ v) bound = if poly_chknorm p bound == 0 then polyveck_chknorm v bound else 1

-- The pair (v1, v0).
unfoldable pub polyveck_power2round : List (List ℤ) → List (List ℤ) × List (List ℤ)
polyveck_power2round v = (map (λ p. (poly_power2round p).0) v, map (λ p. (poly_power2round p).1) v)

-- The pair (v1, v0).
unfoldable pub polyveck_decompose : MldsaParam → List (List ℤ) → List (List ℤ) × List (List ℤ)
polyveck_decompose par v =
    (map (λ p. (poly_decompose par p).0) v, map (λ p. (poly_decompose par p).1) v)

-- The loop of `polyveck_make_hint` with its sum s; the pair (h, s).
unfoldable pub polyveck_make_hint :
    MldsaParam → List (List ℤ) → List (List ℤ) → ℕ → List (List ℕ) × ℕ
polyveck_make_hint par (p0 ∷ v0) (p1 ∷ v1) s =
    let (h, t) = poly_make_hint par p0 p1 in
    let (hs, s') = polyveck_make_hint par v0 v1 (u32 (s + t)) in (h ∷ hs, s')
polyveck_make_hint par [] v1 s = ([], s)
polyveck_make_hint par (p0 ∷ v0) [] s = ([], s)

unfoldable pub polyveck_use_hint : MldsaParam → List (List ℤ) → List (List ℕ) → List (List ℤ)
polyveck_use_hint par u h = zip_with (poly_use_hint par) u h

-- Each polynomial of w1 takes par->w1p_sz bytes.
unfoldable pub polyveck_pack_w1 : MldsaParam → List (List ℤ) → List ℕ
polyveck_pack_w1 par [] = []
polyveck_pack_w1 par (p ∷ w1) = polyw1_pack par p ++ polyveck_pack_w1 par w1
