-- ===== src/MlDsa/Reduce/Canonical.antt =====
-- What `reduce32`, `caddq` and `freeze` compute.
use karudeb.Base.{ℕ, ◌-◌, ◌/◌, ◌^◌, ◌≤◌, ◌<◌, ◌≡◌, ap, refl, arith}
use karudeb.Base.{ℤ, pos, negsuc, pos_part, neg_part, ◌+ℤ◌, ◌-ℤ◌, ◌*ℤ◌}
use karudeb.Base.{+ℤ_parts, -ℤ_parts, *ℤ_parts, one_part_zero, residue, div, Within, Congruent}
use karudeb.Base.{div_parts, Congruent-of_multiple, shr, i32_fits, and_mask}
use karudeb.MlDsa.Params.{q}
use karudeb.MlDsa.Reduce.{reduce32, caddq, freeze}

-- The quotient of `reduce32`.
abbrev quotient : ℤ → ℤ
quotient a = shr (a +ℤ pos (2 ^ 22)) 23

reduce32_bounds :
    (a : ℤ)
    → pos_part a ≤ 2 ^ 31 - 2 ^ 22 - 1
    → neg_part a ≤ 2 ^ 31
    → let r = a -ℤ quotient a *ℤ pos q in (pos_part r ≤ 6283008) × (neg_part r ≤ 6283009)
reduce32_bounds a h k = ground (
  arith,
  one_part_zero a,
  one_part_zero (quotient a),
  one_part_zero (a -ℤ quotient a *ℤ pos q),
  +ℤ_parts a (pos (2 ^ 22)),
  div_parts (a +ℤ pos (2 ^ 22)) (2 ^ 23) (omega arith),
  *ℤ_parts (quotient a) (pos q),
  -ℤ_parts a (quotient a *ℤ pos q),
)

-- On every int32_t up to 2^31 - 2^22 - 1, `reduce32` gives a number of the same class modulo q from
-- -6283009 to 6283008.
pub reduce32_lem :
    (a : ℤ)
    → pos_part a ≤ 2 ^ 31 - 2 ^ 22 - 1
    → neg_part a ≤ 2 ^ 31
    → Congruent q (reduce32 a) a
      × ((pos_part (reduce32 a) ≤ 6283008) × (neg_part (reduce32 a) ≤ 6283009))
unfolding reduce32
reduce32_lem a h k =
    let small = reduce32_bounds a h k in
    rw (i32_fits (a -ℤ quotient a *ℤ pos q) (omega arith) (omega arith)) (multiple, small)
  where
    multiple : Congruent q (a -ℤ quotient a *ℤ pos q) a
    multiple = Congruent-of_multiple q _ a (pos 0 -ℤ quotient a) (omega arith) (
        omega (
          arith,
          -ℤ_parts (pos 0) (quotient a),
          *ℤ_parts (quotient a) (pos q),
          -ℤ_parts a (quotient a *ℤ pos q),
        ))

caddq_pos : (n : ℕ) → n < q → caddq (pos n) ≡ pos n
unfolding caddq and_mask div residue ◌+ℤ◌
caddq_pos n h =
    let e : n / 2 ^ 31 ≡ 0 = omega arith in
    let sum : pos n +ℤ pos 0 ≡ pos n = ground arith in
    rw (e, sum) (i32_fits (pos n) (omega arith) (omega arith))

caddq_negsuc : (n : ℕ) → n < q → caddq (negsuc n) ≡ pos (q - 1 - n)
unfolding caddq and_mask div residue ◌+ℤ◌
caddq_negsuc n h =
    let e : n / 2 ^ 31 ≡ 0 = omega arith in
    let sum : negsuc n +ℤ pos q ≡ pos (q - 1 - n) = ground arith in
    rw (e, sum) (i32_fits (pos (q - 1 - n)) (omega arith) (omega arith))

-- On numbers strictly between -q and q, `caddq` gives the representative from 0 to q - 1.
pub caddq_lem : (a : ℤ) → Within (q - 1) a → caddq a ≡ pos (residue a q)
unfolding residue
caddq_lem (pos n) h = rw (caddq_pos n (omega arith)) (ap pos (omega arith))
caddq_lem (negsuc n) h = rw (caddq_negsuc n (omega arith)) (ap pos (omega arith))

-- On every int32_t up to 2^31 - 2^22 - 1, `freeze` gives the representative from 0 to q - 1.
pub freeze_lem :
    (a : ℤ) → pos_part a ≤ 2 ^ 31 - 2 ^ 22 - 1 → neg_part a ≤ 2 ^ 31 → freeze a ≡ pos (residue a q)
unfolding freeze
freeze_lem a h k =
    let (same, small) = reduce32_lem a h k in rw (caddq_lem (reduce32 a) (omega arith), same) refl
