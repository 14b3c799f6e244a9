-- ===== src/MlKem/Ntt/Butterflies.antt =====
-- The bodies of the inner loops of mlkem_ntt.c, modulo q and in their ranges.
use karudeb.Base.{ℕ, ◌+◌, ◌^◌, ◌<◌, ◌≡◌, refl, sym, ap, ap₂, ◌∙◌, arith}
use karudeb.Base.{ℤ, pos, ◌+ℤ◌, ◌-ℤ◌, ◌*ℤ◌, +ℤ_parts, -ℤ_parts, one_part_zero, +ℤ_comm}
use karudeb.Base.{
  residue, Within, Congruent, Congruent-add, Congruent-sub, Congruent-mul, eq_of_parts,
}
use karudeb.Base.{*ℤ_assoc, *ℤ_comm, i16_fits}
use karudeb.Transform.Evaluate.{one-*ℤ, *ℤ_one, minus_form, difference_form}
use karudeb.MlKem.Reduce.{q, fqmul}
use karudeb.MlKem.Reduce.Barrett.{barrett_reduce_lem}
use karudeb.MlKem.Reduce.Products.{fqmul_lem}
use karudeb.MlKem.Ntt.{ntt_low, ntt_high, invntt_low, invntt_high}
use karudeb.MlKem.Ntt.Roots.{rinv, plain, opposite}

pub r_rinv : Congruent q (pos 1) (pos (2 ^ 16) *ℤ pos rinv)
unfolding residue ◌*ℤ◌
r_rinv = refl

-- What is a times 2 ^ 16 is b times 2 ^ -16.
pub divided : (a b : ℤ) → Congruent q (a *ℤ pos (2 ^ 16)) b → Congruent q a (b *ℤ pos rinv)
divided a b h =
    ap (λ u. residue u q) (sym (*ℤ_one a))
    ∙ Congruent-mul q (omega arith) a a (pos 1) _ refl r_rinv
    ∙ ap (λ u. residue u q) (sym (*ℤ_assoc a (pos (2 ^ 16)) (pos rinv)))
    ∙ Congruent-mul q (omega arith) _ b (pos rinv) _ h refl

-- The product with a factor of the table.
pub twiddle :
    (z y : ℤ)
    → Within 1664 z
    → Within (2 ^ 15) y
    → Congruent q (fqmul z y) (plain z *ℤ y) × Within q (fqmul z y)
twiddle z y hz hy =
    let (same, above, below) = fqmul_lem 1664 (2 ^ 15) z y hz hy (omega arith) in
    (
      divided (fqmul z y) (z *ℤ y) same
          ∙ ap (λ u. residue u q)
              (*ℤ_assoc z y (pos rinv)
                ∙ ap (λ u. z *ℤ u) (*ℤ_comm y (pos rinv))
                ∙ sym (*ℤ_assoc z (pos rinv) y)),
      (omega arith, omega arith),
    )

module _ (b : ℕ) (z x y : ℤ) (hz : Within 1664 z) (hx : Within b x) (hy : Within b y) where
  pub ntt_low_lem :
      b + q < 2 ^ 15
      → Congruent q (ntt_low z x y) (pos 1 *ℤ x +ℤ plain z *ℤ y) × Within (b + q) (ntt_low z x y)
  unfolding ntt_low
  ntt_low_lem h =
      let t = fqmul z y in
      let (same, small) = twiddle z y hz (omega arith, omega arith) in
      let bound : Within (b + q) (x +ℤ t) =
        omega (arith, +ℤ_parts x t, one_part_zero x, one_part_zero t, one_part_zero (x +ℤ t)) in
      rw (i16_fits (x +ℤ t) (omega arith) (omega arith))
        (Congruent-add q (omega arith) _ _ _ _ (ap (λ u. residue u q) (sym (one-*ℤ x))) same, bound)

  pub ntt_high_lem :
      b + q < 2 ^ 15
      → Congruent q (ntt_high z x y) (pos 1 *ℤ x +ℤ (pos 0 -ℤ plain z) *ℤ y)
        × Within (b + q) (ntt_high z x y)
  unfolding ntt_high
  ntt_high_lem h =
      let t = fqmul z y in
      let (same, small) = twiddle z y hz (omega arith, omega arith) in
      let bound : Within (b + q) (x -ℤ t) =
        omega (arith, -ℤ_parts x t, one_part_zero x, one_part_zero t, one_part_zero (x -ℤ t)) in
      rw (i16_fits (x -ℤ t) (omega arith) (omega arith)) (
        Congruent-sub q (omega arith) x x _ _ refl same
            ∙ ap (λ u. residue u q) (minus_form x (plain z) y),
        bound,
      )

  pub invntt_low_lem :
      b + b < 2 ^ 15
      → Congruent q (invntt_low x y) (pos 1 *ℤ x +ℤ pos 1 *ℤ y) × Within q (invntt_low x y)
  unfolding invntt_low
  invntt_low_lem h =
      let bound : Within (b + b) (x +ℤ y) =
        omega (arith, +ℤ_parts x y, one_part_zero x, one_part_zero y, one_part_zero (x +ℤ y)) in
      let (same, small) = barrett_reduce_lem (x +ℤ y) (omega arith) (omega arith) in
      rw (i16_fits (x +ℤ y) (omega arith) (omega arith)) (
        same ∙ ap (λ u. residue u q) (sym (ap₂ ◌+ℤ◌ (one-*ℤ x) (one-*ℤ y))),
        (omega arith, omega arith),
      )

  pub invntt_high_lem :
      b + b < 2 ^ 15
      → Congruent q (invntt_high z x y) (opposite z *ℤ x +ℤ (pos 0 -ℤ opposite z) *ℤ y)
        × Within q (invntt_high z x y)
  unfolding invntt_high
  invntt_high_lem h =
      let bound : Within (b + b) (y -ℤ x) =
        omega (arith, -ℤ_parts y x, one_part_zero x, one_part_zero y, one_part_zero (y -ℤ x)) in
      let (same, small) = twiddle z (y -ℤ x) hz (omega arith, omega arith) in
      let twice : pos 0 -ℤ opposite z ≡ plain z =
        eq_of_parts _ _
          (omega (arith, -ℤ_parts (pos 0) (opposite z), -ℤ_parts (pos 0) (plain z))) in
      rw (i16_fits (y -ℤ x) (omega arith) (omega arith)) (
        same
            ∙ ap (λ u. residue u q)
                (sym (difference_form (plain z) y x)
                  ∙ +ℤ_comm (plain z *ℤ y) (opposite z *ℤ x)
                  ∙ ap (λ u. opposite z *ℤ x +ℤ u *ℤ y) (sym twice)),
        small,
      )
