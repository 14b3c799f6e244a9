-- ===== src/MlDsa/Rounding/Power.antt =====
-- `power2round` splits off the 13 lowest bits, rounding to the nearest.
use karudeb.Base.{◌-◌, ◌^◌, ◌≡◌, arith}
use karudeb.Base.{ℤ, pos, ◌+ℤ◌, ◌-ℤ◌, ◌*ℤ◌, ◌≤ℤ◌, ◌<ℤ◌, eq_of_parts}
use karudeb.Base.{+ℤ_parts, -ℤ_parts, *ℤ_parts, div_parts, shr, negsuc}
use karudeb.MlDsa.Rounding.{power2round}

-- What is left after the rounded shift.
low_bits_bounds :
    (a : ℤ)
    → let a1 : ℤ = shr (a +ℤ pos (2 ^ 12) -ℤ pos 1) 13 in
      let a0 : ℤ = a -ℤ a1 *ℤ pos (2 ^ 13) in (negsuc (2 ^ 12 - 1) <ℤ a0) × (a0 ≤ℤ pos (2 ^ 12))
low_bits_bounds a =
    let s : ℤ = a +ℤ pos (2 ^ 12) -ℤ pos 1 in
    let a1 : ℤ = shr s 13 in
    omega (
      arith,
      +ℤ_parts a (pos (2 ^ 12)),
      -ℤ_parts (a +ℤ pos (2 ^ 12)) (pos 1),
      div_parts s (2 ^ 13) (omega arith),
      *ℤ_parts a1 (pos (2 ^ 13)),
      -ℤ_parts a (a1 *ℤ pos (2 ^ 13)),
    )

-- For every a, `power2round` gives a1 and a0 with a = a1 * 2^13 + a0 and -2^12 < a0 <= 2^12.
pub power2round_lem :
    (a : ℤ)
    → let (a1, a0) = power2round a in
      (a ≡ a1 *ℤ pos (2 ^ 13) +ℤ a0) × ((negsuc (2 ^ 12 - 1) <ℤ a0) × (a0 ≤ℤ pos (2 ^ 12)))
unfolding power2round
power2round_lem a =
    let s : ℤ = a +ℤ pos (2 ^ 12) -ℤ pos 1 in
    let a1 : ℤ = shr s 13 in
    let a0 : ℤ = a -ℤ a1 *ℤ pos (2 ^ 13) in
    (
      eq_of_parts a _
          (omega (arith, -ℤ_parts a (a1 *ℤ pos (2 ^ 13)), +ℤ_parts (a1 *ℤ pos (2 ^ 13)) a0)),
      low_bits_bounds a,
    )
