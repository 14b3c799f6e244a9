-- ===== src/MlDsa/Examples/Transforms.antt =====
-- The theorems on the transforms of mldsa_ntt.c at concrete inputs.
use karudeb.Base.{◌+◌, ◌-◌, ◌*◌, ◌≡◌, refl, arith}
use karudeb.Base.{
  ℤ, pos, negsuc, residue, Within, List, ◌∷◌, map, length, replicate, All, All-replicate,
}
use karudeb.Transform.Layers.{values}
use karudeb.Transform.Inverse.{scaled}
use karudeb.Transform.Product.{negacyclic}
use karudeb.Transform.Unique.{residues}
use karudeb.MlDsa.Params.{q}
use karudeb.MlDsa.Ntt.{mldsa_ntt, mldsa_invntt}
use karudeb.Transform.Evaluate.{eval}
use karudeb.MlDsa.Ntt.Roots.{roots, root_numbers, length-roots}
use karudeb.MlDsa.Vectors.{
  polyvec_matrix_pointwise_montgomery, polyvecl_ntt, polyveck_reduce, polyveck_invntt_tomont,
}
use karudeb.MlDsa.Vectors.Products.{IsMatrix, combination, matrix-product}
use karudeb.Base.{◌+ℤ◌, ◌*ℤ◌, []}
use karudeb.MlDsa.Ntt.Forward.{mldsa_ntt_lem}
use karudeb.MlDsa.Ntt.Inverse.{mldsa_invntt_lem}
use karudeb.MlDsa.Poly.{mldsa_poly_ntt, mldsa_poly_invntt_tomont, poly_pointwise_montgomery}
use karudeb.MlDsa.Poly.Product.{ntt-product}

abbrev polynomial : List ℤ
polynomial = pos 3 ∷ negsuc 8380416 ∷ replicate 254 (pos 8380417)

polynomial-Within : All (Within q) polynomial
polynomial-Within = (
  (omega arith, omega arith),
  (
    (omega arith, omega arith),
    All-replicate (Within q) 254 (pos 8380417) (omega arith, omega arith),
  ),
)

abbrev sparse : List ℤ
sparse = negsuc 0 ∷ pos 1 ∷ replicate 254 (pos 0)

sparse-Within : All (Within q) sparse
sparse-Within = (
  (omega arith, omega arith),
  ((omega arith, omega arith), All-replicate (Within q) 254 (pos 0) (omega arith, omega arith)),
)

mldsa_ntt_example :
    (map (λ c. residue c q) (mldsa_ntt polynomial) ≡ values q roots polynomial)
    × All (Within (q + 8 * q)) (mldsa_ntt polynomial)
    × (length (mldsa_ntt polynomial) ≡ 256)
mldsa_ntt_example = mldsa_ntt_lem q polynomial refl polynomial-Within (omega arith)

mldsa_invntt_example :
    (values q roots (mldsa_invntt polynomial)
      ≡ scaled q 4294967296 (map (λ c. residue c q) polynomial))
    × All (Within (q - 1)) (mldsa_invntt polynomial)
    × (length (mldsa_invntt polynomial) ≡ 256)
mldsa_invntt_example = mldsa_invntt_lem polynomial refl polynomial-Within

ntt-product_example :
    (let c =
        mldsa_poly_invntt_tomont
          (poly_pointwise_montgomery (mldsa_poly_ntt sparse) (mldsa_poly_ntt polynomial)) in
      (residues q c ≡ residues q (negacyclic 256 sparse polynomial))
      × All (Within (q - 1)) c
      × (length c ≡ 256))
ntt-product_example = ntt-product sparse polynomial refl refl sparse-Within polynomial-Within

-- The polynomials 5 and X, and their transforms.
abbrev constant : List ℤ
constant = pos 5 ∷ replicate 255 (pos 0)

abbrev variable : List ℤ
variable = pos 0 ∷ pos 1 ∷ replicate 254 (pos 0)

constant-values : residues q (replicate 256 (pos 5)) ≡ values q roots constant
unfolding eval roots root_numbers residue ◌+ℤ◌ ◌*ℤ◌
constant-values = refl

variable-values : residues q roots ≡ values q roots variable
unfolding eval roots root_numbers residue ◌+ℤ◌ ◌*ℤ◌
variable-values = refl

roots-Within : All (Within q) roots
unfolding roots root_numbers
roots-Within = omega arith

matrix-product_example :
    (let mat = (replicate 256 (pos 5) ∷ roots ∷ []) ∷ [] in
      let product =
        polyvec_matrix_pointwise_montgomery mat (polyvecl_ntt (polynomial ∷ sparse ∷ [])) in
      map (residues q) (polyveck_invntt_tomont (polyveck_reduce product))
      ≡ map
          (λ ps. residues q (combination ps (polynomial ∷ sparse ∷ [])))
          ((constant ∷ variable ∷ []) ∷ []))
matrix-product_example =
    matrix-product ((replicate 256 (pos 5) ∷ roots ∷ []) ∷ []) ((constant ∷ variable ∷ []) ∷ [])
      (polynomial ∷ sparse ∷ []) (omega arith) (omega arith) is_matrix
  where
    is_matrix :
        IsMatrix
          ((replicate 256 (pos 5) ∷ roots ∷ []) ∷ [])
          ((constant ∷ variable ∷ []) ∷ [])
          (polynomial ∷ sparse ∷ [])
    is_matrix = (
      (
        (
          (
            refl,
            All-replicate (Within q) 256 (pos 5) (omega arith, omega arith),
            refl,
            constant-values,
          ),
          refl,
          polynomial-Within,
        ),
        (((length-roots, roots-Within, refl, variable-values), refl, sparse-Within), tt),
      ),
      tt,
    )
