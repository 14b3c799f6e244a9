-- ===== src/MlKem/Reduce/Barrett.antt =====
-- What `barrett_reduce` computes.
use karudeb.Base.{◌^◌, ◌≤◌, ◌<◌, ◌≡◌, arith}
use karudeb.Base.{ℤ, pos, pos_part, neg_part, ◌+ℤ◌, ◌-ℤ◌, ◌*ℤ◌}
use karudeb.Base.{+ℤ_parts, -ℤ_parts, *ℤ_parts, one_part_zero}
use karudeb.Base.{div, Within, Congruent, div_parts, Congruent-of_multiple}
use karudeb.Base.{i16, shr, i16_parts, i16_fits, i16_unique}
use karudeb.MlKem.Reduce.{q, barrett_v, barrett_reduce}

-- The quotient that the code rounds to the nearest, before its conversion to int16_t.
quotient : ℤ → ℤ
quotient a = shr (barrett_v *ℤ a +ℤ pos 33554432) 26

-- Rounding is right for every int16_t: a - q * quotient is the centered representative.
quotient_centered :
    (a : ℤ)
    → pos_part a < 2 ^ 15
    → neg_part a ≤ 2 ^ 15
    → Within 1664 (a -ℤ quotient a *ℤ pos q) × Within 10 (quotient a)
unfolding quotient
quotient_centered a h k = ground (
  arith,
  one_part_zero a,
  one_part_zero (quotient a),
  one_part_zero (a -ℤ quotient a *ℤ pos q),
  *ℤ_parts barrett_v a,
  +ℤ_parts (barrett_v *ℤ a) (pos 33554432),
  div_parts (barrett_v *ℤ a +ℤ pos 33554432) (2 ^ 26) (omega arith),
  *ℤ_parts (quotient a) (pos q),
  -ℤ_parts a (quotient a *ℤ pos q),
)

-- The wrap of q * t in the code cancels against the wrap of the difference.
barrett_reduce_exact :
    (a : ℤ)
    → pos_part a < 2 ^ 15
    → neg_part a ≤ 2 ^ 15
    → barrett_reduce a ≡ a -ℤ quotient a *ℤ pos q
unfolding barrett_reduce quotient
barrett_reduce_exact a h k =
    let (centered, small) = quotient_centered a h k in
    let t : ℤ = quotient a in
    rw (i16_fits (quotient a) (omega arith) (omega arith)) (
      i16_unique _ _ (div (t *ℤ pos q +ℤ pos (2 ^ 15)) (2 ^ 16)) (omega arith) (omega arith) (
        omega
          (arith, i16_parts (t *ℤ pos q), -ℤ_parts a (t *ℤ pos q), -ℤ_parts a (i16 (t *ℤ pos q)))))

-- On every int16_t, `barrett_reduce` gives the representative between -1664 and 1664 of the class
-- of its argument modulo q.
pub barrett_reduce_lem :
    (a : ℤ)
    → pos_part a < 2 ^ 15
    → neg_part a ≤ 2 ^ 15
    → Congruent q (barrett_reduce a) a × Within 1664 (barrett_reduce a)
barrett_reduce_lem a h k = rw (barrett_reduce_exact a h k) (multiple, (quotient_centered a h k).0)
  where
    multiple : Congruent q (a -ℤ quotient a *ℤ pos q) a
    multiple = Congruent-of_multiple q _ a (pos 0 -ℤ quotient a) (omega arith) (
        omega (
          arith,
          -ℤ_parts (pos 0) (quotient a),
          *ℤ_parts (quotient a) (pos q),
          -ℤ_parts a (quotient a *ℤ pos q),
        ))
