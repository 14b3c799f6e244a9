-- ===== src/MlDsa/Poly/Sum.antt =====
-- The sum of two polynomials and its reduction modulo q in tools/pqc/mldsa/mldsa_poly.c.
use karudeb.Base.{ℕ, suc, ◌+◌, ◌-◌, ◌*◌, ◌%◌, ◌^◌, ◌<◌, ◌≡◌, refl, ap, ap₂, ◌∙◌, arith}
use karudeb.Base.{ℤ, pos, ◌+ℤ◌, +ℤ_parts, eq_of_parts, one_part_zero, i32_fits}
use karudeb.Base.{residue, Within, Congruent-add, List, [], ◌∷◌, length, zip_with, All}
use karudeb.Transform.Evaluate.{eval}
use karudeb.Transform.Layers.{values}
use karudeb.Transform.Inverse.{scaled, residue-Congruent, mul-mod}
use karudeb.Transform.Product.{plus, eval-plus}
use karudeb.Transform.Unique.{residues}
use karudeb.MlDsa.Params.{q}
use karudeb.MlDsa.Reduce.Canonical.{reduce32_lem}
use karudeb.MlDsa.Poly.{mldsa_poly_reduce, mldsa_poly_add}

-- Sums of residues, entry by entry.
abbrev pub sums : List ℕ → List ℕ → List ℕ
sums = zip_with (λ u v. (u + v) % q)

residue-pos_mod : (m : ℕ) → residue (pos m) q ≡ m % q
unfolding residue
residue-pos_mod m = refl

residue-add : (x y : ℤ) → residue (x +ℤ y) q ≡ (residue x q + residue y q) % q
residue-add x y =
    Congruent-add q (omega arith) x (pos (residue x q)) y (pos (residue y q))
      (residue-Congruent q (omega arith) x) (residue-Congruent q (omega arith) y)
    ∙ whole (residue x q) (residue y q)
  where
    together : (m k : ℕ) → pos m +ℤ pos k ≡ pos (m + k)
    together m k = eq_of_parts _ _ (omega (arith, +ℤ_parts (pos m) (pos k)))

    whole : (m k : ℕ) → residue (pos m +ℤ pos k) q ≡ (m + k) % q
    whole m k = ap (λ t. residue t q) (together m k) ∙ residue-pos_mod (m + k)

pub values-plus : (rs a b : List ℤ) → values q rs (plus a b) ≡ sums (values q rs a) (values q rs b)
values-plus [] a b = refl
values-plus (r ∷ rs) a b =
    ap₂ ◌∷◌ (ap (λ t. residue t q) (eval-plus r a b) ∙ residue-add (eval r a) (eval r b))
      (values-plus rs a b)

pub scaled-sums :
    (c : ℕ) (u v : List ℕ) → scaled q c (sums u v) ≡ sums (scaled q c u) (scaled q c v)
scaled-sums c [] v = refl
scaled-sums c (x ∷ u) [] = refl
scaled-sums c (x ∷ u) (y ∷ v) = ap₂ ◌∷◌ (distribute c x y) (scaled-sums c u v)
  where
    split : (m k : ℕ) → (m + k) % q ≡ (m % q + k % q) % q
    split m k = omega arith

    distribute : (c x y : ℕ) → c * ((x + y) % q) % q ≡ (c * x % q + c * y % q) % q
    distribute c x y =
        let e : c * (x + y) ≡ c * x + c * y = grind arith in
        mul-mod q (omega arith) c (x + y) ∙ ap (λ (t : ℕ). t % q) e ∙ split (c * x) (c * y)

-- A sum of two polynomials with room in int32_t.
pub add_lem :
    (b : ℕ) (w t : List ℤ)
    → b + q < 2 ^ 31
    → All (Within b) w
    → All (Within q) t
    → (residues q (mldsa_poly_add w t) ≡ sums (residues q w) (residues q t))
      × All (Within (b + q)) (mldsa_poly_add w t)
unfolding mldsa_poly_add
add_lem b [] t h hw ht = (refl, tt)
add_lem b (x ∷ w) [] h hw ht = (refl, tt)
add_lem b (x ∷ w) (y ∷ t) h (hx, hw) (hy, ht) =
    let bound : Within (b + q) (x +ℤ y) =
      omega (arith, +ℤ_parts x y, one_part_zero x, one_part_zero y, one_part_zero (x +ℤ y)) in
    let fits = i32_fits (x +ℤ y) (omega arith) (omega arith) in
    let rest = add_lem b w t h hw ht in
    (ap₂ ◌∷◌ (ap (λ u. residue u q) fits ∙ residue-add x y) rest.0, (rw fits bound, rest.1))

-- The reduction before the inverse transform.
pub reduce_lem :
    (b : ℕ) (a : List ℤ)
    → b < 2 ^ 31 - 2 ^ 22
    → All (Within b) a
    → (residues q (mldsa_poly_reduce a) ≡ residues q a)
      × All (Within q) (mldsa_poly_reduce a)
      × (length (mldsa_poly_reduce a) ≡ length a)
unfolding mldsa_poly_reduce
reduce_lem b [] h ha = (refl, tt, refl)
reduce_lem b (x ∷ a) h (hx, ha) =
    let (same, small) = reduce32_lem x (omega arith) (omega arith) in
    let rest = reduce_lem b a h ha in
    (ap₂ ◌∷◌ same rest.0, ((omega arith, omega arith), rest.1), ap suc rest.2)
