-- ===== src/MlDsa/Poly/Product.antt =====
-- The product of polynomials through the transforms of mldsa_ntt.c.
use karudeb.Base.{◌-◌, ◌*◌, ◌%◌, ◌^◌, ◌≡◌, refl, sym, ap, ap₂, ◌∙◌, arith}
use karudeb.Base.{ℤ, pos, ◌-ℤ◌, ◌*ℤ◌, residue, Within, Congruent, product-Within, *ℤ_comm}
use karudeb.Base.{List, [], ◌∷◌, length, All}
use karudeb.Transform.Evaluate.{power}
use karudeb.Transform.Layers.{length-zip_with, All-zip_with}
use karudeb.Transform.Inverse.{scaled, residue-scale}
use karudeb.Transform.Product.{
  negacyclic, products, length-negacyclic, residue-times, values-negacyclic,
}
use karudeb.Transform.Unique.{residues}
use karudeb.Transform.Roots.{all_equal, all_equal_sound}
use karudeb.MlDsa.Params.{q}
use karudeb.MlDsa.Reduce.{montgomery_reduce}
use karudeb.MlDsa.Reduce.Montgomery.{montgomery_reduce-Congruent}
use karudeb.MlDsa.Ntt.{mldsa_ntt, mldsa_invntt}
use karudeb.MlDsa.Ntt.Roots.{roots, root_numbers}
use karudeb.MlDsa.Ntt.Forward.{mldsa_ntt_lem}
use karudeb.MlDsa.Ntt.Inverse.{mldsa_invntt_lem}
use karudeb.MlDsa.Ntt.Determined.{roots_determine}
use karudeb.MlDsa.Poly.{mldsa_poly_ntt, mldsa_poly_invntt_tomont, poly_pointwise_montgomery}

-- Every point is a root of X ^ 256 + 1.
pub roots_negacyclic : All (λ r. Congruent q (power r 256 *ℤ pos 1) (pos 0 -ℤ pos 1)) roots
unfolding roots root_numbers all_equal residue ◌-ℤ◌
roots_negacyclic =
    all_equal_sound q (omega arith) (λ _. pos 1) (λ _. pos 1) 256 (pos 1) (pos 0 -ℤ pos 1)
      root_numbers refl

-- 2 ^ 32 times a Montgomery product is the product.
pub product_residue :
    (x y : ℤ)
    → Within (9 * q) x
    → Within (9 * q) y
    → (2 ^ 32 * residue (montgomery_reduce (x *ℤ y)) q % q ≡ residue x q * residue y q % q)
      × Within q (montgomery_reduce (x *ℤ y))
product_residue x y hx hy =
    let p : Within (9 * q * (9 * q)) (x *ℤ y) = product-Within x y hx hy in
    let (same, above, below) = montgomery_reduce-Congruent (x *ℤ y) (omega arith, omega arith) in
    let t = montgomery_reduce (x *ℤ y) in
    (
      sym (residue-scale q (omega arith) (2 ^ 32) t)
          ∙ ap (λ u. residue u q) (*ℤ_comm (pos (2 ^ 32)) t)
          ∙ same
          ∙ residue-times q x y (omega arith),
      (omega arith, omega arith),
    )

pub pointwise_products :
    (a b : List ℤ)
    → All (Within (9 * q)) a
    → All (Within (9 * q)) b
    → scaled q (2 ^ 32) (residues q (poly_pointwise_montgomery a b))
      ≡ products q (residues q a) (residues q b)
unfolding poly_pointwise_montgomery
pointwise_products [] b ha hb = refl
pointwise_products (x ∷ a) [] ha hb = refl
pointwise_products (x ∷ a) (y ∷ b) ha hb =
    ap₂ ◌∷◌ (product_residue x y ha.0 hb.0).0 (pointwise_products a b ha.1 hb.1)

pub pointwise_range :
    (a b : List ℤ)
    → length a ≡ 256
    → length b ≡ 256
    → All (Within (9 * q)) a
    → All (Within (9 * q)) b
    → All (Within q) (poly_pointwise_montgomery a b)
      × (length (poly_pointwise_montgomery a b) ≡ 256)
unfolding poly_pointwise_montgomery
pointwise_range a b la lb ha hb = (
  All-zip_with (Within (9 * q)) (Within q) _ a b (λ x y hx hy. (product_residue x y hx hy).1) ha hb,
  length-zip_with _ a b (la ∙ sym lb) ∙ la,
)

-- For two polynomials of 256 coefficients of absolute value at most q, transforming both, multiplying
-- pointwise and transforming back gives modulo q their product modulo X ^ 256 + 1, with coefficients smaller
-- than q in absolute value.
pub ntt-product :
    (a b : List ℤ)
    → length a ≡ 256
    → length b ≡ 256
    → All (Within q) a
    → All (Within q) b
    → (let c =
          mldsa_poly_invntt_tomont
            (poly_pointwise_montgomery (mldsa_poly_ntt a) (mldsa_poly_ntt b)) in
        (residues q c ≡ residues q (negacyclic 256 a b))
        × All (Within (q - 1)) c
        × (length c ≡ 256))
unfolding mldsa_poly_invntt_tomont mldsa_poly_ntt
ntt-product a b long long' small small' =
    let (va, ra, la) = mldsa_ntt_lem q a long small (omega arith) in
    let (vb, rb, lb) = mldsa_ntt_lem q b long' small' (omega arith) in
    let a' = mldsa_ntt a in
    let b' = mldsa_ntt b in
    let m = poly_pointwise_montgomery a' b' in
    let (range, size) = pointwise_range a' b' la lb ra rb in
    let (vc, rc, lc) = mldsa_invntt_lem m size range in
    (
      roots_determine (mldsa_invntt m) (negacyclic 256 a b) lc
          (length-negacyclic 256 a b (omega arith) long long')
          (vc
            ∙ pointwise_products a' b' ra rb
            ∙ ap₂ (products q) va vb
            ∙ sym (
                values-negacyclic q 256 (omega arith) (omega arith) roots a b long long'
                  roots_negacyclic)),
      rc,
      lc,
    )
