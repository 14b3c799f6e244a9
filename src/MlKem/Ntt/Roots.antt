-- ===== src/MlKem/Ntt/Roots.antt =====
-- The points of the transform of mlkem_ntt.c: a block of two coefficients is a polynomial modulo
-- X ^ 2 - r for each point r.
use karudeb.Base.{ℕ, ◌≡◌, refl, arith}
use karudeb.Base.{ℤ, pos, ◌-ℤ◌, ◌*ℤ◌, Within, All, List, map, length}
use karudeb.Transform.Roots.{odd_powers}
use karudeb.MlKem.Reduce.{q}
use karudeb.MlKem.Ntt.Zetas.{mlkem_zetas}

-- 17 is the 256th root of unity of FIPS 203.
unfoldable pub root_numbers : List ℕ
unfolding odd_powers
root_numbers = odd_powers q 17 7

unfoldable pub roots : List ℤ
roots = map pos root_numbers

-- 2^-16 modulo q: the zetas of the table are in Montgomery form.
abbrev pub rinv : ℕ
rinv = 169

abbrev pub plain : ℤ → ℤ
plain z = z *ℤ pos rinv

-- The inverse transform subtracts in the opposite order.
abbrev pub opposite : ℤ → ℤ
opposite z = pos 0 -ℤ plain z

pub table-Within : All (Within 1664) mlkem_zetas
table-Within = omega arith

pub length-roots : length roots ≡ 128
unfolding roots root_numbers
length-roots = refl
