-- ===== src/MlKem/Examples/Transforms.antt =====
-- The theorems on the transforms of mlkem_ntt.c at concrete inputs.
use karudeb.Base.{◌+◌, ◌-◌, ◌*◌, ◌≡◌, refl, arith, Bool}
use karudeb.Base.{ℤ, pos, negsuc, Within, List, ◌∷◌, length, replicate, All, All-replicate}
use karudeb.Transform.Layers.{values}
use karudeb.Transform.Inverse.{scaled}
use karudeb.Transform.Parity.{pick}
use karudeb.Transform.Product.{negacyclic}
use karudeb.Transform.Unique.{residues}
use karudeb.MlKem.Reduce.{q}
use karudeb.MlKem.Ntt.{
  mlkem_ntt, mlkem_invntt, mlkem_poly_ntt, mlkem_poly_invntt_tomont, poly_basemul_montgomery,
}
use karudeb.MlKem.Ntt.Roots.{roots}
use karudeb.MlKem.Ntt.Forward.{mlkem_ntt_lem}
use karudeb.MlKem.Ntt.Inverse.{mlkem_invntt_lem}
use karudeb.MlKem.Ntt.Convolution.{basemul-product}

abbrev polynomial : List ℤ
polynomial = pos 3 ∷ negsuc 9463 ∷ replicate 254 (pos 9464)

polynomial-Within : All (Within 9464) polynomial
polynomial-Within = (
  (omega arith, omega arith),
  (
    (omega arith, omega arith),
    All-replicate (Within 9464) 254 (pos 9464) (omega arith, omega arith),
  ),
)

abbrev sparse : List ℤ
sparse = negsuc 0 ∷ pos 1 ∷ replicate 254 (pos 0)

sparse-Within : All (Within 9464) sparse
sparse-Within = (
  (omega arith, omega arith),
  ((omega arith, omega arith), All-replicate (Within 9464) 254 (pos 0) (omega arith, omega arith)),
)

mlkem_ntt_example :
    ((p : Bool) → residues q (pick p (mlkem_ntt polynomial)) ≡ values q roots (pick p polynomial))
    × All (Within (9464 + 7 * q)) (mlkem_ntt polynomial)
    × (length (mlkem_ntt polynomial) ≡ 256)
mlkem_ntt_example = mlkem_ntt_lem 9464 polynomial refl polynomial-Within (omega arith)

mlkem_invntt_example :
    ((p : Bool)
      → values q roots (pick p (mlkem_invntt polynomial))
        ≡ scaled q 65536 (residues q (pick p polynomial)))
    × All (Within (q - 1)) (mlkem_invntt polynomial)
    × (length (mlkem_invntt polynomial) ≡ 256)
mlkem_invntt_example = mlkem_invntt_lem 9464 polynomial refl polynomial-Within (omega arith)

basemul-product_example :
    (let c =
        mlkem_poly_invntt_tomont
          (poly_basemul_montgomery (mlkem_poly_ntt sparse) (mlkem_poly_ntt polynomial)) in
      (residues q c ≡ residues q (negacyclic 256 sparse polynomial))
      × All (Within (q - 1)) c
      × (length c ≡ 256))
basemul-product_example =
    basemul-product sparse polynomial refl refl sparse-Within polynomial-Within
