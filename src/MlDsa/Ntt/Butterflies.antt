-- ===== src/MlDsa/Ntt/Butterflies.antt =====
-- The bodies of the inner loops of mldsa_ntt.c, modulo q and in their ranges.
use karudeb.Base.{ℕ, ◌+◌, ◌*◌, ◌^◌, ◌≤◌, ◌<◌, refl, sym, ap, ap₂, ◌∙◌, arith}
use karudeb.Base.{ℤ, pos, ◌+ℤ◌, ◌-ℤ◌, ◌*ℤ◌, +ℤ_parts, -ℤ_parts, one_part_zero}
use karudeb.Base.{residue, Within, Congruent, Congruent-add, Congruent-sub, Congruent-mul}
use karudeb.Base.{*ℤ_assoc, *ℤ_comm, product-Within, i32_fits}
use karudeb.Transform.Evaluate.{one-*ℤ, *ℤ_one, minus_form, difference_form}
use karudeb.MlDsa.Params.{q}
use karudeb.MlDsa.Reduce.{montgomery_reduce}
use karudeb.MlDsa.Reduce.Montgomery.{montgomery_reduce-Congruent}
use karudeb.MlDsa.Ntt.{forward_low, forward_high, inverse_low, inverse_high}
use karudeb.MlDsa.Ntt.Roots.{rinv, plain}

pub r_rinv : Congruent q (pos 1) (pos (2 ^ 32) *ℤ pos rinv)
unfolding residue ◌*ℤ◌
r_rinv = refl

-- Montgomery reduction divides by 2 ^ 32.
pub reduce_plain :
    (a : ℤ) → Within (2 ^ 31 * q) a → Congruent q (montgomery_reduce a) (a *ℤ pos rinv)
reduce_plain a h =
    let t = montgomery_reduce a in
    ap (λ u. residue u q) (sym (*ℤ_one t))
    ∙ Congruent-mul q (omega arith) t t (pos 1) _ refl r_rinv
    ∙ ap (λ u. residue u q) (sym (*ℤ_assoc t (pos (2 ^ 32)) (pos rinv)))
    ∙ Congruent-mul q (omega arith) _ a (pos rinv) _ (montgomery_reduce-Congruent a h).0 refl

-- The product with a factor of the table.
pub twiddle :
    (b : ℕ) (z y : ℤ)
    → Within (2 ^ 22) z
    → Within b y
    → b < 2 ^ 31
    → Congruent q (montgomery_reduce (z *ℤ y)) (plain z *ℤ y)
      × Within q (montgomery_reduce (z *ℤ y))
twiddle b z y hz hy h =
    let p : Within (2 ^ 22 * b) (z *ℤ y) = product-Within z y hz hy in
    let w : Within (2 ^ 31 * q) (z *ℤ y) = omega (arith, p) in
    let (same, above, below) = montgomery_reduce-Congruent (z *ℤ y) w in
    (
      reduce_plain (z *ℤ y) w
          ∙ ap (λ u. residue u q)
              (*ℤ_assoc z y (pos rinv)
                ∙ ap (λ u. z *ℤ u) (*ℤ_comm y (pos rinv))
                ∙ sym (*ℤ_assoc z (pos rinv) y)),
      (omega (arith, above, p, h), omega (arith, below, p, h)),
    )

module _ (b : ℕ) (z x y : ℤ) (hz : Within (2 ^ 22) z) (hx : Within b x) (hy : Within b y) where
  pub forward_low_lem :
      b + q < 2 ^ 31
      → Congruent q (forward_low z x y) (pos 1 *ℤ x +ℤ plain z *ℤ y)
        × Within (b + q) (forward_low z x y)
  unfolding forward_low
  forward_low_lem h =
      let t = montgomery_reduce (z *ℤ y) in
      let (same, small) = twiddle b z y hz hy (omega arith) in
      let bound : Within (b + q) (x +ℤ t) =
        omega (arith, +ℤ_parts x t, one_part_zero x, one_part_zero t, one_part_zero (x +ℤ t)) in
      rw (i32_fits (x +ℤ t) (omega arith) (omega arith))
        (Congruent-add q (omega arith) _ _ _ _ (ap (λ u. residue u q) (sym (one-*ℤ x))) same, bound)

  pub forward_high_lem :
      b + q < 2 ^ 31
      → Congruent q (forward_high z x y) (pos 1 *ℤ x +ℤ (pos 0 -ℤ plain z) *ℤ y)
        × Within (b + q) (forward_high z x y)
  unfolding forward_high
  forward_high_lem h =
      let t = montgomery_reduce (z *ℤ y) in
      let (same, small) = twiddle b z y hz hy (omega arith) in
      let bound : Within (b + q) (x -ℤ t) =
        omega (arith, -ℤ_parts x t, one_part_zero x, one_part_zero t, one_part_zero (x -ℤ t)) in
      rw (i32_fits (x -ℤ t) (omega arith) (omega arith)) (
        Congruent-sub q (omega arith) x x _ _ refl same
            ∙ ap (λ u. residue u q) (minus_form x (plain z) y),
        bound,
      )

  pub inverse_low_lem :
      b + b < 2 ^ 31
      → Congruent q (inverse_low x y) (pos 1 *ℤ x +ℤ pos 1 *ℤ y) × Within (b + b) (inverse_low x y)
  unfolding inverse_low
  inverse_low_lem h =
      let bound : Within (b + b) (x +ℤ y) =
        omega (arith, +ℤ_parts x y, one_part_zero x, one_part_zero y, one_part_zero (x +ℤ y)) in
      rw (i32_fits (x +ℤ y) (omega arith) (omega arith))
        (ap (λ u. residue u q) (sym (ap₂ ◌+ℤ◌ (one-*ℤ x) (one-*ℤ y))), bound)

  pub inverse_high_lem :
      b + b < 2 ^ 31
      → q ≤ b
      → Congruent q (inverse_high z x y) (plain z *ℤ x +ℤ (pos 0 -ℤ plain z) *ℤ y)
        × Within (b + b) (inverse_high z x y)
  unfolding inverse_high
  inverse_high_lem h k =
      let bound : Within (b + b) (x -ℤ y) =
        omega (arith, -ℤ_parts x y, one_part_zero x, one_part_zero y, one_part_zero (x -ℤ y)) in
      let (same, small) = twiddle (b + b) z (x -ℤ y) hz bound h in
      rw (i32_fits (x -ℤ y) (omega arith) (omega arith)) (
        same ∙ ap (λ u. residue u q) (sym (difference_form (plain z) x y)),
        (omega arith, omega arith),
      )
