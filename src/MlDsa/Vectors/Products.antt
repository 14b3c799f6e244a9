-- ===== src/MlDsa/Vectors/Products.antt =====
-- A row of the matrix times a vector in tools/pqc/mldsa/polyvec.c.
use karudeb.Base.{ℕ, suc, ◌+◌, ◌-◌, ◌*◌, ◌^◌, ◌≤◌, ◌<◌, ◌≡◌, refl, sym, ap, ap₂, ◌∙◌, arith}
use karudeb.Base.{ℤ}
use karudeb.Base.{Within, List, [], ◌∷◌, map, length, All}
use karudeb.Transform.Layers.{values, length-zip_with}
use karudeb.Transform.Inverse.{scaled}
use karudeb.Transform.Product.{
  plus, negacyclic, products, length-plus, length-negacyclic, values-negacyclic,
}
use karudeb.Transform.Unique.{residues}
use karudeb.MlDsa.Params.{q}
use karudeb.MlDsa.Ntt.{mldsa_ntt, mldsa_invntt}
use karudeb.MlDsa.Ntt.Roots.{roots}
use karudeb.MlDsa.Ntt.Forward.{mldsa_ntt_lem}
use karudeb.MlDsa.Ntt.Inverse.{mldsa_invntt_lem}
use karudeb.MlDsa.Ntt.Determined.{roots_determine}
use karudeb.MlDsa.Poly.{
  mldsa_poly_ntt, mldsa_poly_invntt_tomont, mldsa_poly_reduce, mldsa_poly_add,
  poly_pointwise_montgomery,
}
use karudeb.MlDsa.Poly.Product.{roots_negacyclic, pointwise_products, pointwise_range}
use karudeb.MlDsa.Vectors.{
  pointwise_acc, polyvecl_pointwise_acc_montgomery, polyvecl_ntt,
  polyvec_matrix_pointwise_montgomery, polyveck_reduce, polyveck_invntt_tomont,
}
use karudeb.MlDsa.Poly.Sum.{sums, values-plus, scaled-sums, add_lem, reduce_lem}

-- u is the transform of the polynomial p, up to multiples of q.
abbrev pub IsTransform : List ℤ → List ℤ → Type 0
IsTransform u p =
    (length u ≡ 256) × All (Within q) u × (length p ≡ 256) × (residues q u ≡ values q roots p)

-- A row of transforms, their polynomials, and a vector of as many polynomials of small coefficients.
abbrev pub IsRow : List (List ℤ) → List (List ℤ) → List (List ℤ) → Type 0
IsRow [] [] [] = Unit
IsRow (u ∷ us) (p ∷ ps) (v ∷ vs) =
    (IsTransform u p × (length v ≡ 256) × All (Within q) v) × IsRow us ps vs
IsRow us ps vs = ⊥

-- w + p1 v1 + p2 v2 + ... modulo X ^ 256 + 1.
abbrev pub add_products : List ℤ → List (List ℤ) → List (List ℤ) → List ℤ
add_products w (p ∷ ps) (v ∷ vs) = add_products (plus w (negacyclic 256 p v)) ps vs
add_products w ps vs = w

All-weaken : (u : List ℤ) → All (Within q) u → All (Within (9 * q)) u
All-weaken [] h = tt
All-weaken (x ∷ u) (hx, h) = ((omega arith, omega arith), All-weaken u h)

length-plus-256 : (p r : List ℤ) → length p ≡ 256 → length r ≡ 256 → length (plus p r) ≡ 256
length-plus-256 p r h k =
    let both = length-plus p r 256 (omega arith) (omega arith) in omega (arith, both)

-- One Montgomery product of a row, times 2 ^ 32.
entry_lem :
    (u p v : List ℤ)
    → IsTransform u p
    → length v ≡ 256
    → All (Within q) v
    → (let t = poly_pointwise_montgomery u (mldsa_poly_ntt v) in
        (scaled q (2 ^ 32) (residues q t) ≡ values q roots (negacyclic 256 p v))
        × All (Within q) t
        × (length t ≡ 256))
unfolding mldsa_poly_ntt
entry_lem u p v (lu, ru, lp, same) lv rv =
    let (vv, wide, size) = mldsa_ntt_lem q v lv rv (omega arith) in
    let ru' = All-weaken u ru in
    let (range, long) = pointwise_range u (mldsa_ntt v) lu size ru' wide in
    (
      pointwise_products u (mldsa_ntt v) ru' wide
          ∙ ap₂ (products q) same vv
          ∙ sym (
              values-negacyclic q 256 (omega arith) (omega arith) roots p v lp lv roots_negacyclic),
      range,
      long,
    )

-- The sum so far, and the polynomial that it stands for.
abbrev Holds : ℕ → List ℤ → List ℤ → Type 0
Holds b w p =
    (length w ≡ 256)
    × All (Within b) w
    × (length p ≡ 256)
    × (scaled q (2 ^ 32) (residues q w) ≡ values q roots p)

add-Holds :
    (b : ℕ) (w p t r : List ℤ)
    → b + q < 2 ^ 31
    → Holds b w p
    → Holds q t r
    → Holds (b + q) (mldsa_poly_add w t) (plus p r)
add-Holds b w p t r h (lw, rw', lp, sw) (lt, rt, lr, st) =
    let (sum, range) = add_lem b w t h rw' rt in
    (
      unfold mldsa_poly_add in length-zip_with _ w t (lw ∙ sym lt) ∙ lw,
      range,
      length-plus-256 p r lp lr,
      ap (scaled q (2 ^ 32)) sum
          ∙ scaled-sums (2 ^ 32) (residues q w) (residues q t)
          ∙ ap₂ sums sw st
          ∙ sym (values-plus roots p r),
    )

pointwise_acc-Holds :
    (b : ℕ) (w p : List ℤ) (us ps vs : List (List ℤ))
    → b + length vs * q < 2 ^ 31
    → Holds b w p
    → IsRow us ps vs
    → Holds (b + length vs * q) (pointwise_acc w us (polyvecl_ntt vs)) (add_products p ps vs)
unfolding pointwise_acc polyvecl_ntt
pointwise_acc-Holds b w p [] [] [] h s row = let e : b + 0 ≡ b = omega arith in rw e s
pointwise_acc-Holds b w p [] [] (_ ∷ _) h s row = absurd row
pointwise_acc-Holds b w p [] (_ ∷ _) vs h s row = absurd row
pointwise_acc-Holds b w p (_ ∷ _) [] vs h s row = absurd row
pointwise_acc-Holds b w p (_ ∷ _) (_ ∷ _) [] h s row = absurd row
pointwise_acc-Holds b w p (u ∷ us) (r ∷ ps) (v ∷ vs) h s ((ht, lv, rv), row) =
    let t = poly_pointwise_montgomery u (mldsa_poly_ntt v) in
    let (same, range, long) = entry_lem u r v ht lv rv in
    let size = length-negacyclic 256 r v (omega arith) ht.2 lv in
    let next = add-Holds b w p t (negacyclic 256 r v) (omega arith) s (long, range, size, same) in
    let e : b + suc (length vs) * q ≡ b + q + length vs * q = omega arith in
    rw e (
      pointwise_acc-Holds (b + q) (mldsa_poly_add w t) (plus p (negacyclic 256 r v)) us ps vs
        (omega arith) next row)

-- p1 v1 + p2 v2 + ... modulo X ^ 256 + 1.
abbrev pub combination : List (List ℤ) → List (List ℤ) → List ℤ
combination (p ∷ ps) (v ∷ vs) = add_products (negacyclic 256 p v) ps vs
combination ps vs = []

row_lem :
    (us ps vs : List (List ℤ))
    → 0 < length vs
    → length vs ≤ 255
    → IsRow us ps vs
    → (let c =
          mldsa_poly_invntt_tomont
            (mldsa_poly_reduce (polyvecl_pointwise_acc_montgomery us (polyvecl_ntt vs))) in
        (residues q c ≡ residues q (combination ps vs)) × All (Within (q - 1)) c × (length c ≡ 256))
unfolding mldsa_poly_invntt_tomont polyvecl_pointwise_acc_montgomery polyvecl_ntt
row_lem [] [] [] h k row = absurd (omega arith)
row_lem [] [] (_ ∷ _) h k row = absurd row
row_lem [] (_ ∷ _) vs h k row = absurd row
row_lem (_ ∷ _) [] vs h k row = absurd row
row_lem (_ ∷ _) (_ ∷ _) [] h k row = absurd row
row_lem (u ∷ us) (p ∷ ps) (v ∷ vs) h k ((ht, lv, rv), row) =
    let t = poly_pointwise_montgomery u (mldsa_poly_ntt v) in
    let (same, range, long) = entry_lem u p v ht lv rv in
    let size = length-negacyclic 256 p v (omega arith) ht.2 lv in
    let w = pointwise_acc t us (polyvecl_ntt vs) in
    let sum = add_products (negacyclic 256 p v) ps vs in
    let (lw, range_w, ls, sw) =
      pointwise_acc-Holds q t (negacyclic 256 p v) us ps vs (omega arith) (long, range, size, same)
        row in
    let (kept, small, length_kept) = reduce_lem (q + length vs * q) w (omega arith) range_w in
    let (vc, rc, lc) = mldsa_invntt_lem (mldsa_poly_reduce w) (length_kept ∙ lw) small in
    (
      roots_determine (mldsa_invntt (mldsa_poly_reduce w)) sum lc ls
          (vc ∙ ap (scaled q (2 ^ 32)) kept ∙ sw),
      rc,
      lc,
    )

-- A matrix of transforms, row by row, with its polynomials.
abbrev pub IsMatrix : List (List (List ℤ)) → List (List (List ℤ)) → List (List ℤ) → Type 0
IsMatrix [] [] vs = Unit
IsMatrix (us ∷ mat) (ps ∷ polys) vs = IsRow us ps vs × IsMatrix mat polys vs
IsMatrix mat polys vs = ⊥

-- For a matrix whose entries are transforms of the polynomials of a second matrix, with absolute values at
-- most q, and a vector of 1 to 255 polynomials of coefficients at most q, the product that key generation
-- and signing compute, by `polyvecl_ntt`, `polyvec_matrix_pointwise_montgomery`, `polyveck_reduce` and
-- `polyveck_invntt_tomont`, has in each row modulo q the sum of the products of the polynomials modulo
-- X ^ 256 + 1.
pub matrix-product :
    (mat polys : List (List (List ℤ))) (vs : List (List ℤ))
    → 0 < length vs
    → length vs ≤ 255
    → IsMatrix mat polys vs
    → (let product = polyvec_matrix_pointwise_montgomery mat (polyvecl_ntt vs) in
        map (residues q) (polyveck_invntt_tomont (polyveck_reduce product))
        ≡ map (λ ps. residues q (combination ps vs)) polys)
unfolding polyvec_matrix_pointwise_montgomery polyveck_reduce polyveck_invntt_tomont
matrix-product [] [] vs h k m = refl
matrix-product [] (_ ∷ _) vs h k m = absurd m
matrix-product (_ ∷ _) [] vs h k m = absurd m
matrix-product (us ∷ mat) (ps ∷ polys) vs h k (row, m) =
    ap₂ ◌∷◌ (row_lem us ps vs h k row).0 (matrix-product mat polys vs h k m)
