-- ===== src/MlDsa/Reduce/Montgomery.antt =====
-- What `montgomery_reduce` computes.
use karudeb.Base.{◌+◌, ◌*◌, ◌^◌, ◌≤◌, ◌≡◌, arith}
use karudeb.Base.{ℤ, pos, pos_part, neg_part, ◌-ℤ◌, ◌*ℤ◌, -ℤ_parts, *ℤ_parts}
use karudeb.Base.{one_part_zero, residue, Within, Congruent, div_parts, Congruent-of_multiple}
use karudeb.Base.{i32, shr, i32_parts, i32_fits}
use karudeb.MlDsa.Params.{q, qinv}
use karudeb.MlDsa.Reduce.{montgomery_reduce}

-- The factor that the code multiplies by q, and the difference that it shifts.
factor : ℤ → ℤ
factor a = i32 (i32 a *ℤ pos qinv)

difference : ℤ → ℤ
difference a = a -ℤ factor a *ℤ pos q

difference_parts :
    (a : ℤ)
    → pos_part (difference a) + neg_part a + q * pos_part (factor a)
      ≡ neg_part (difference a) + pos_part a + q * neg_part (factor a)
unfolding difference
difference_parts a = omega (arith, -ℤ_parts a (factor a *ℤ pos q), *ℤ_parts (factor a) (pos q))

-- The factor makes the difference divisible by 2 ^ 32, so that the shift loses nothing.
difference_divisible : (a : ℤ) → residue (difference a) (2 ^ 32) ≡ 0
unfolding factor
difference_divisible a = omega (
  arith,
  difference_parts a,
  i32_parts a,
  i32_parts (i32 a *ℤ pos qinv),
  *ℤ_parts (i32 a) (pos qinv),
  div_parts (difference a) (2 ^ 32) (omega arith),
)

factor_bound : (a : ℤ) → (pos_part (factor a) ≤ 2 ^ 31) × (neg_part (factor a) ≤ 2 ^ 31)
unfolding factor
factor_bound a = omega (arith, i32_parts (i32 a *ℤ pos qinv))

-- The shift of the difference, before its conversion to int32_t.
shift : ℤ → ℤ
shift a = shr (difference a) 32

shift_bound :
    (a : ℤ)
    → Within (2 ^ 31 * q) a
    → (2 ^ 32 * pos_part (shift a) ≤ pos_part a + 2 ^ 31 * q)
      × (2 ^ 32 * neg_part (shift a) ≤ neg_part a + 2 ^ 31 * q)
unfolding shift
shift_bound a h = omega (
  arith,
  one_part_zero a,
  one_part_zero (shr (difference a) 32),
  factor_bound a,
  one_part_zero (factor a),
  difference_parts a,
  difference_divisible a,
  div_parts (difference a) (2 ^ 32) (omega arith),
)

reduce_is_shift : (a : ℤ) → Within (2 ^ 31 * q) a → montgomery_reduce a ≡ shift a
unfolding montgomery_reduce factor difference shift
reduce_is_shift a h =
    i32_fits (shift a) (omega (arith, shift_bound a h)) (omega (arith, shift_bound a h))

shift-Congruent : (a : ℤ) → Congruent q (shift a *ℤ pos (2 ^ 32)) a
unfolding shift
shift-Congruent a = Congruent-of_multiple q _ a (pos 0 -ℤ factor a) (omega arith) (
    omega (
      arith,
      -ℤ_parts (pos 0) (factor a),
      *ℤ_parts (shr (difference a) 32) (pos (2 ^ 32)),
      difference_parts a,
      difference_divisible a,
      div_parts (difference a) (2 ^ 32) (omega arith),
    ))

-- For |a| at most 2 ^ 31 q, `montgomery_reduce` gives a number r with r 2 ^ 32 congruent to a
-- modulo q, and 2 ^ 32 |r| is at most |a| + 2 ^ 31 q.
pub montgomery_reduce-Congruent :
    (a : ℤ)
    → Within (2 ^ 31 * q) a
    → Congruent q (montgomery_reduce a *ℤ pos (2 ^ 32)) a
      × (2 ^ 32 * pos_part (montgomery_reduce a) ≤ pos_part a + 2 ^ 31 * q)
      × (2 ^ 32 * neg_part (montgomery_reduce a) ≤ neg_part a + 2 ^ 31 * q)
montgomery_reduce-Congruent a h =
    let (p, n) = shift_bound a h in rw (reduce_is_shift a h) (shift-Congruent a, p, n)
